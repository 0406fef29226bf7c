-- ===== src/Brain/Plan.antt =====
-- brain/plan.go: the data of a plan and of a patch to it. A JSON value that the code only carries
-- (interface{}, json.RawMessage) is of the parameter J. A map is an association list, and a map or a
-- pointer that may be nil is an Option.
pub mod Patch
pub mod Check
use ho.Prelude.{ℕ, Bool, List, Option}
use ho.Prelude.Bytes.{Bytes}

abbrev pub Dict : Type 0
Dict = List (Bytes × Bytes)

pub record LibrarySpec : Type 0 where
  pub name : Bytes
  pub url : Bytes
  pub purpose : Bytes

pub record TypographySpec : Type 0 where
  pub heading_font : Bytes
  pub body_font : Bytes

pub record DesignSystem : Type 0 where
  pub colors : Option Dict
  pub extended_colors : Option Dict
  pub typography : Option TypographySpec
  pub design_intent : Bytes
  pub dark_mode : Bool
  pub components : Option Dict

pub record LayoutSpec : Type 0 where
  pub style : Bytes
  pub nav_items : List Bytes
  pub header : Bytes
  pub footer : Bytes

pub record SectionSpec : Type 0 where
  pub name : Bytes
  pub purpose : Bytes
  pub layout_hint : Bytes
  pub endpoints : List Bytes
  pub data_flow : Bytes

pub record PageSpec : Type 0 where
  pub path : Bytes
  pub title : Bytes
  pub purpose : Bytes
  pub sections : List SectionSpec
  pub endpoints : List Bytes
  pub auth : Bool
  pub notes : Bytes

pub record WebhookSpec : Type 0 where
  pub name : Bytes
  pub direction : Bytes
  pub url : Bytes
  pub event_types : List Bytes

pub record ActionSpec (J : Type 0) : Type 0 where
  pub name : Bytes
  pub event_type : Bytes
  pub action_type : Bytes
  pub action_config : List (Bytes × J)
  pub event_filter : List (Bytes × J)

pub record ComponentSpec : Type 0 where
  pub name : Bytes
  pub purpose : Bytes

pub record TaskSpec : Type 0 where
  pub name : Bytes
  pub description : Bytes
  pub prompt : Bytes
  pub cron : Bytes
  pub interval_sec : ℕ

pub record EndpointSpec : Type 0 where
  pub action : Bytes
  pub path : Bytes
  pub table_name : Bytes
  pub requires_auth : Bool
  pub public_read : Bool
  pub streaming : Option Bool
  pub room_column : Bytes
  pub write_table : Bytes
  pub event_types : List Bytes
  pub username_col : Bytes
  pub password_col : Bytes
  pub default_role : Bytes
  pub role_column : Bytes
  pub jwt_expiry_hours : ℕ
  pub public_columns : List Bytes
  pub owner_column : Bytes

pub record ColumnDef : Type 0 where
  pub name : Bytes
  pub kind : Bytes
  pub primary : Bool
  pub required : Bool

pub record TableSpec (J : Type 0) : Type 0 where
  pub name : Bytes
  pub purpose : Bytes
  pub columns : List ColumnDef
  pub seed_data : Option J
  pub searchable_columns : List Bytes

pub record PlanQuestion (J : Type 0) : Type 0 where
  pub question : Bytes
  pub kind : Bytes
  pub options : List Bytes
  pub secret_name : Bytes
  pub fields : Option J

pub record Plan (J : Type 0) : Type 0 where
  pub app_type : Bytes
  pub architecture : Bytes
  pub auth_strategy : Bytes
  pub design_system : Option DesignSystem
  pub layout : Option LayoutSpec
  pub tables : List (TableSpec J)
  pub endpoints : List EndpointSpec
  pub pages : List PageSpec
  pub external_libraries : List LibrarySpec
  pub exclusions : List Bytes
  pub webhooks : List WebhookSpec
  pub actions : List (ActionSpec J)
  pub components : List ComponentSpec
  pub scheduled_tasks : List TaskSpec
  pub questions : List (PlanQuestion J)

pub record PlanPatch (J : Type 0) : Type 0 where
  pub add_pages : List PageSpec
  pub modify_pages : List PageSpec
  pub remove_pages : List Bytes
  pub add_endpoints : List EndpointSpec
  pub modify_endpoints : List EndpointSpec
  pub add_tables : List (TableSpec J)
  pub modify_tables : List (TableSpec J)
  pub add_webhooks : List WebhookSpec
  pub add_components : List ComponentSpec
  pub add_tasks : List TaskSpec
  pub update_css : Bool
  pub update_nav : Bool
  pub update_auth_strategy : Bytes
  pub update_design_system : Option DesignSystem
  pub update_layout : Option LayoutSpec

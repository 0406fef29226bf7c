-- ===== src/Brain/Plan/Check/Sound.antt =====
-- brain/plan.go, ValidatePlan: it returns no error exactly for the plans that are well formed.
use ho.Prelude.{
  ℕ, ◌+◌, ◌≡◌, refl, ◌↔◌, Bool, true, inl, inr, List, [], ◌∷◌, ◌++◌, map, All, Option, none, some,
  Bool-cases, arith,
}
use ho.Prelude.Bytes.{Bytes, codes}
use ho.Brain.Plan.{Dict, DesignSystem, LayoutSpec, EndpointSpec, TableSpec, Plan}
use ho.Brain.Plan.Check.{
  PlanError, is_text, unless, was_seen, duplicates, color, check_colors, check_design, is_chrome,
  check_layout, is_action, check_endpoints, column_name, has_own_column, check_table, check_tables,
  has_pages, page_path, validate_plan,
}
use ho.Brain.Plan.Check.Names.{Distinct, no_duplicates}

append_nil : (xs ys : List PlanError) → (xs ++ ys ≡ []) ↔ ((xs ≡ []) × (ys ≡ []))
append_nil [] ys = ((λ e. (refl, e)), λ h. h.1)
append_nil (x ∷ xs) ys = ((λ e. cc), λ h. cc)

unless_nil : (ok : Bool) (e : PlanError) → (unless ok e ≡ []) ↔ (ok ≡ true)
unless_nil ok e = ground arith

map_nil : (f : Bytes → PlanError) (xs : List Bytes) → (map f xs ≡ []) ↔ (xs ≡ [])
map_nil f [] = ((λ e. refl), λ e. refl)
map_nil f (x ∷ xs) = ((λ e. cc), λ e. cc)

-- Colors with a primary one and a background.
abbrev pub GoodColors : Option Dict → Type 0
GoodColors none = ⊥
GoodColors (some []) = ⊥
GoodColors (some (kv ∷ d)) =
    (is_text (color (codes "primary") (kv ∷ d)) ≡ true)
    × (is_text (color (codes "bg") (kv ∷ d)) ≡ true)

abbrev pub GoodDesign : Option DesignSystem → Type 0
GoodDesign none = Unit
GoodDesign (some d) = GoodColors d.colors

abbrev pub GoodLayout : Option LayoutSpec → Type 0
GoodLayout none = ⊥
GoodLayout (some l) = (is_chrome l.header ≡ true) × (is_chrome l.footer ≡ true)

abbrev pub GoodEndpoint : EndpointSpec → Type 0
GoodEndpoint ep = (is_action ep.action ≡ true) × (is_text ep.path ≡ true)

check_colors_iff : (c : Option Dict) → (check_colors c ≡ []) ↔ GoodColors c
unfolding check_colors
check_colors_iff none = ((λ e. cc), λ h. absurd h)
check_colors_iff (some []) = ((λ e. cc), λ h. absurd h)
check_colors_iff (some (kv ∷ d)) = ground arith

check_design_iff : (d : Option DesignSystem) → (check_design d ≡ []) ↔ GoodDesign d
unfolding check_design
check_design_iff none = ((λ e. tt), λ h. refl)
check_design_iff (some d) = check_colors_iff d.colors

check_layout_iff : (l : Option LayoutSpec) → (check_layout l ≡ []) ↔ GoodLayout l
unfolding check_layout
check_layout_iff none = ((λ e. cc), λ h. absurd h)
check_layout_iff (some l) = layout (is_chrome l.header) (is_chrome l.footer)
  where
    layout :
        (a b : Bool)
        → (unless a (PlanError.bad_header l.header) ++ unless b (PlanError.bad_footer l.footer)
            ≡ [])
          ↔ ((a ≡ true) × (b ≡ true))
    layout a b = ground arith

check_endpoints_iff :
    (i : ℕ) (eps : List EndpointSpec) → (check_endpoints i eps ≡ []) ↔ All GoodEndpoint eps
unfolding check_endpoints
check_endpoints_iff i [] = ((λ e. tt), λ h. refl)
check_endpoints_iff i (ep ∷ eps) =
    let (there, back) = check_endpoints_iff (i + 1) eps in
    let (split, join) =
      append_nil
        (unless (is_action ep.action) (PlanError.bad_action i ep.action)
          ++ unless (is_text ep.path) (PlanError.path_required i))
        (check_endpoints (i + 1) eps) in
    let (split', join') =
      append_nil (unless (is_action ep.action) (PlanError.bad_action i ep.action))
        (unless (is_text ep.path) (PlanError.path_required i)) in
    let (a, a') = unless_nil (is_action ep.action) (PlanError.bad_action i ep.action) in
    let (b, b') = unless_nil (is_text ep.path) (PlanError.path_required i) in
    (
      (λ e. let k = split e in let s = split' k.0 in ((a s.0, b s.1), there k.1)),
      λ h. join (join' (a' h.0.0, b' h.0.1), back h.1),
    )

module _ {J : Type 0} where
  -- A named table with distinct columns, of which one at least is its own.
  abbrev pub GoodTable : TableSpec J → Type 0
  GoodTable t =
      (is_text t.name ≡ true)
      × Distinct (map column_name t.columns)
      × (has_own_column t.columns ≡ true)

  check_table_iff : (i : ℕ) (t : TableSpec J) → (check_table i t ≡ []) ↔ GoodTable t
  unfolding check_table
  check_table_iff i t = elim (Bool-cases (is_text t.name)) [
    | inr unnamed ↦ rw (unnamed, check_table) ((λ e. cc), λ h. cc)
    | inl named ↦
        let (split, join) =
          append_nil
            (map (PlanError.duplicate_column t.name) (duplicates [] (map column_name t.columns)))
            (unless (has_own_column t.columns) (PlanError.only_system_columns t.name)) in
        let (m, m') =
          map_nil (PlanError.duplicate_column t.name) (duplicates [] (map column_name t.columns)) in
        let (d, d') = no_duplicates (map column_name t.columns) in
        let (o, o') =
          unless_nil (has_own_column t.columns) (PlanError.only_system_columns t.name) in
        rw (named, check_table)
          ((λ e. let k = split e in (refl, d (m k.0), o k.1)), λ h. join (m' (d' h.1), o' h.2))
  ]

  check_tables_iff : (i : ℕ) (ts : List (TableSpec J)) → (check_tables i ts ≡ []) ↔ All GoodTable ts
  unfolding check_tables
  check_tables_iff i [] = ((λ e. tt), λ h. refl)
  check_tables_iff i (t ∷ ts) =
      let (split, join) = append_nil (check_table i t) (check_tables (i + 1) ts) in
      let (a, a') = check_table_iff i t in
      let (there, back) = check_tables_iff (i + 1) ts in
      ((λ e. let k = split e in (a k.0, there k.1)), λ h. join (a' h.0, back h.1))

  pub record WellFormed (p : Plan J) : Type 0 where
    pub named : is_text p.app_type ≡ true
    pub some_page : has_pages p.pages ≡ true
    pub distinct : Distinct (map page_path p.pages)
    pub homepage : was_seen (codes "/") (map page_path p.pages) ≡ true
    pub design : GoodDesign p.design_system
    pub layout : GoodLayout p.layout
    pub endpoints : All GoodEndpoint p.endpoints
    pub tables : All GoodTable p.tables

  -- ValidatePlan finds no error exactly in a plan that has a type of app, pages with distinct paths and a homepage among them, no design system or one with a primary color and a background, a layout whose header and footer are empty or known, endpoints of known actions with paths, and named tables with distinct columns, of which one is not the system's where there are any.
  pub validate_plan_iff : (p : Plan J) → (validate_plan p ≡ []) ↔ WellFormed p
  unfolding validate_plan
  validate_plan_iff p =
      let (d, d') = no_duplicates (map page_path p.pages) in
      let (m, m') = map_nil PlanError.duplicate_path (duplicates [] (map page_path p.pages)) in
      let (g, g') = check_design_iff p.design_system in
      let (l, l') = check_layout_iff p.layout in
      let (ep, ep') = check_endpoints_iff 0 p.endpoints in
      let (t, t') = check_tables_iff 0 p.tables in
      (
        (λ e.
            let (e1, r1) = (append_nil _ _).0 e in
            let (e2, r2) = (append_nil _ _).0 r1 in
            let (e3, r3) = (append_nil _ _).0 r2 in
            let (e4, r4) = (append_nil _ _).0 r3 in
            let (e5, r5) = (append_nil _ _).0 r4 in
            let (e6, r6) = (append_nil _ _).0 r5 in
            let (e7, e8) = (append_nil _ _).0 r6 in
            record {
              named = (unless_nil _ _).0 e1;
              some_page = (unless_nil _ _).0 e2;
              distinct = d (m e3);
              homepage = (unless_nil _ _).0 e4;
              design = g e5;
              layout = l e6;
              endpoints = ep e7;
              tables = t e8;
            }),
        λ h. (append_nil _ _).1 (
          (unless_nil _ _).1 h.named,
          (append_nil _ _).1 (
            (unless_nil _ _).1 h.some_page,
            (append_nil _ _).1 (
              m' (d' h.distinct),
              (append_nil _ _).1 (
                (unless_nil _ _).1 h.homepage,
                (append_nil _ _).1 (
                  g' h.design,
                  (append_nil _ _).1
                      (l' h.layout, (append_nil _ _).1 (ep' h.endpoints, t' h.tables)),
                ),
              ),
            ),
          ),
        ),
      )

-- ===== src/Tools/Registry.antt =====
-- The registry of tools: tools/registry.go. A tool's own Execute is an argument of the executor.
mod Names
pub mod Filtered
use ho.Prelude.{ℕ, zero, suc, ◌+◌, ◌-◌, ◌*◌, ◌/◌, ◌%◌, ◌≤◌, ◌<◌, ◌≡◌, refl, sym, ap, ◌∙◌, subst}
use ho.Prelude.{◌≢◌, ◌↔◌, ◌⊎◌, inl, inr, Bool, true, false, not, ◌&&◌, ◌||◌, Option, none, some}
use ho.Prelude.{
  List, [], ◌∷◌, ◌++◌, map, arith, if◌then◌else◌, ltb, leb, ◌==◌, Bool-cases, Option-cases,
}
use ho.Prelude.{length, All, any, all, select, take, drop, length-append, any-append, All-append}
use ho.Prelude.{All-map, take-drop, length-drop, ==_iff, ==_refl, String, min, max}
unfoldable pub use Names.*
use ho.Prelude.Bytes.{Bytes, codes}
use ho.Prelude.Dict.{bytes_eq, find, put, has_key}

-- What an LLM provider is told of a tool; `guide` is there for a tool that implements Documented.
pub record Tool : Type 0 where
  pub name : Bytes
  pub description : Bytes
  pub parameters : Bytes
  pub guide : Option Bytes

pub record ToolDef : Type 0 where
  pub name : Bytes
  pub description : Bytes
  pub parameters : Bytes

-- The map of tools by name
abbrev pub Registry : Type 0
Registry = List (Bytes × Tool)

unfoldable pub register : Tool → Registry → Registry
register t r = put t.name t r

-- `none` is the error of a tool that is not found.
abbrev pub get : Bytes → Registry → Option Tool
get name r = find name r

abbrev pub has : Bytes → Registry → Bool
has name r = has_key name r

abbrev pub names : Registry → List Bytes
names [] = []
names ((k, t) ∷ r) = k ∷ names r

unfoldable pub sorted_names : Registry → List Bytes
sorted_names r = sort_names (names r)

abbrev pub cons_tool : Option Tool → List Tool → List Tool
cons_tool none ts = ts
cons_tool (some t) ts = t ∷ ts

-- The tools of the names, in their order.
abbrev pub tools_of : Registry → List Bytes → List Tool
tools_of r [] = []
tools_of r (name ∷ rest) = cons_tool (get name r) (tools_of r rest)

unfoldable pub list_tools : Registry → List Tool
list_tools r = tools_of r (sorted_names r)

abbrev pub def_of : Tool → ToolDef
def_of t = record { name = t.name; description = t.description; parameters = t.parameters }

unfoldable pub to_llm_tools : Registry → List ToolDef
to_llm_tools r = map def_of (tools_of r (sorted_names r))

unfoldable pub to_llm_tools_filtered : (Bytes → Bool) → Registry → List ToolDef
to_llm_tools_filtered allowed r = map def_of (tools_of r (select allowed (sorted_names r)))

-- The guides of the documented tools, a line break after each.
abbrev pub guides : List Tool → Bytes
guides [] = []
guides (t ∷ ts) = elim t.guide [ none ↦ guides ts | some g ↦ g ++ (10 ∷ guides ts) ]

unfoldable pub build_guide : (Bytes → Bool) → Registry → Bytes
build_guide allowed r = guides (tools_of r (select allowed (sorted_names r)))

abbrev pub plan_lines : List Tool → Bytes
plan_lines [] = []
plan_lines (t ∷ ts) =
    codes "- **" ++ (t.name ++ (codes "**: " ++ (t.description ++ (10 ∷ plan_lines ts))))

unfoldable pub build_plan_guide : (Bytes → Bool) → Registry → Bytes
build_plan_guide allowed r =
    codes "### Platform Capabilities"
    ++ (10 ∷ (plan_lines (tools_of r (select allowed (sorted_names r))) ++ (10 ∷ [])))

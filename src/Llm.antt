-- ===== src/Llm.antt =====
-- The registry of language model providers: llm/registry.go. A provider is of any type P.
pub mod Default
use ho.Prelude.{ℕ, zero, suc, ◌+◌, ◌-◌, ◌*◌, ◌/◌, ◌%◌, ◌≤◌, ◌<◌, ◌≡◌, refl, sym, ap, ◌∙◌, subst}
use ho.Prelude.{◌≢◌, ◌↔◌, ◌⊎◌, inl, inr, Bool, true, false, not, ◌&&◌, ◌||◌, Option, none, some}
use ho.Prelude.{
  List, [], ◌∷◌, ◌++◌, map, arith, if◌then◌else◌, ltb, leb, ◌==◌, Bool-cases, Option-cases,
}
use ho.Prelude.{length, All, any, all, select, take, drop, length-append, any-append, All-append}
use ho.Prelude.{All-map, take-drop, length-drop, ==_iff, ==_refl, String, min, max}
use ho.Prelude.Bytes.{Bytes}
use ho.Prelude.Dict.{bytes_eq, find, put, has_key}

pub record Providers (P : Type 0) : Type 0 where
  pub providers : List (Bytes × P)
  pub default_name : Bytes

abbrev pub is_nil : Bytes → Bool
is_nil [] = true
is_nil (c ∷ s) = false

module _ {P : Type 0} where
  unfoldable pub register : Bytes → P → Providers P → Providers P
  register name p r = record {
    providers = put name p r.providers;
    default_name = if is_nil r.default_name then name else r.default_name;
  }

  -- `none` is the error.
  abbrev pub get : Bytes → Providers P → Option P
  get name r = find name r.providers

  abbrev pub list_names : List (Bytes × P) → List Bytes
  list_names [] = []
  list_names ((k, p) ∷ rest) = k ∷ list_names rest

  unfoldable pub default_provider : Providers P → Option P
  default_provider r = if is_nil r.default_name then none else find r.default_name r.providers

  -- Whether the name is known, and the registry.
  unfoldable pub set_default : Bytes → Providers P → Bool × Providers P
  set_default name r =
      if has_key name r.providers then (true, record r { default_name = name }) else (false, r)

-- ===== src/Brain/Plan/Check/Patched.antt =====
-- brain/plan.go: ApplyPatch on a plan that ValidatePlan accepts.
use ho.Prelude.{◌≡◌, refl, [], Option, none, some, arith}
use ho.Brain.Plan.{Dict, DesignSystem, Plan, PlanPatch}
use ho.Brain.Plan.Patch.{apply_patch}
use ho.Brain.Plan.Patch.Design.{NilColors, apply_patch-none}
use ho.Brain.Plan.Check.{validate_plan}
use ho.Brain.Plan.Check.Sound.{GoodColors, GoodDesign, validate_plan_iff}

colors-absurd : (colors : Option Dict) → GoodColors colors → colors ≡ none → ⊥
colors-absurd none good e = good
colors-absurd (some d) good e = ground (arith, e)

design-absurd : (u d : Option DesignSystem) → GoodDesign d → NilColors u d → ⊥
design-absurd none d good bad = absurd bad
design-absurd (some u) none good bad = absurd bad
design-absurd (some u) (some d) good bad = colors-absurd d.colors good bad.0

module _ {J : Type 0} where
  result_of : (r : Option (Plan J)) → (r ≡ none → ⊥) → (p : Plan J) × (r ≡ some p)
  result_of none h = absurd (h refl)
  result_of (some p) h = (p, refl)

  -- ApplyPatch does not panic on a plan in which ValidatePlan finds no error, whatever the patch.
  pub apply_patch-validate_plan :
      (patch : PlanPatch J) (p : Plan J)
      → validate_plan p ≡ []
      → (p' : Plan J) × (apply_patch patch p ≡ some p')
  apply_patch-validate_plan patch p h =
      let good = (validate_plan_iff p).0 h in
      result_of (apply_patch patch p) λ e.
        design-absurd patch.update_design_system p.design_system good.design
          ((apply_patch-none patch p).0 e)

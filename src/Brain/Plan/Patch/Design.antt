-- ===== src/Brain/Plan/Patch/Design.antt =====
-- brain/plan.go, ApplyPatch: the design system, where a write into a nil map panics, and the endpoints
-- that the plan's exclusions rule out.
use ho.Prelude.{
  ◌≡◌, refl, ap, ◌∙◌, Bool, true, false, ◌↔◌, List, [], ◌∷◌, ◌++◌, Option, none, some,
  if◌then◌else◌, arith, All,
}
use ho.Prelude.Bytes.{Bytes, same, same_iff}
use ho.Brain.Plan.{Dict, DesignSystem, EndpointSpec, Plan, PlanPatch}
use ho.Brain.Plan.Patch.{
  put, put_all, merge_colors, merge_design, patch_design, apply_patch, as_design, with_colors,
  with_design, filter_endpoints, modify_endpoint, modify_endpoints, patch_endpoints,
}

-- d[k], for a key that is there
unfoldable pub get : Bytes → Dict → Option Bytes
get k [] = none
get k ((j, v) ∷ d) = if same j k then some v else get k d

abbrev pub override : Option Bytes → Option Bytes → Option Bytes
override none old = old
override (some v) old = some v

-- The last value that the entries give the key.
abbrev pub last_of : Bytes → Dict → Option Bytes
last_of k [] = none
last_of k ((j, v) ∷ d) = override (last_of k d) (if same j k then some v else none)

get-put : (k j v : Bytes) (d : Dict) → get j (put k v d) ≡ (if same k j then some v else get j d)
unfolding get put
get-put k j v [] = refl
get-put k j v ((i, w) ∷ d) =
    ground (arith, get-put k j v d, same_iff i k, same_iff i j, same_iff k j)

pub get-put_all :
    (j : Bytes) (new d : Dict) → get j (put_all new d) ≡ override (last_of j new) (get j d)
unfolding put_all
get-put_all j [] d = refl
get-put_all j ((k, v) ∷ new) d = rw (get-put_all j new (put k v d), get-put k j v d) (ground arith)

abbrev pub has_entries : Option Dict → Bool
has_entries none = false
has_entries (some []) = false
has_entries (some (kv ∷ d)) = true

-- Colors are to be written, and the map to write them to is nil.
abbrev pub NilColors : Option DesignSystem → Option DesignSystem → Type 0
NilColors (some u) (some d) = (d.colors ≡ none) × (has_entries u.colors ≡ true)
NilColors _ _ = ⊥

merge_colors-none :
    (new old : Option Dict)
    → (merge_colors new old ≡ none) ↔ ((old ≡ none) × (has_entries new ≡ true))
unfolding merge_colors
merge_colors-none none old = ground arith
merge_colors-none (some []) old = ground arith
merge_colors-none (some (kv ∷ new)) none = ground arith
merge_colors-none (some (kv ∷ new)) (some d) = ground arith

merge_design_none :
    (u d : DesignSystem) (m : Option (Option Dict))
    → (as_design (with_colors u d m) ≡ none) ↔ (m ≡ none)
merge_design_none u d none = ground arith
merge_design_none u d (some c) = ground arith

patch_design-none : (u d : Option DesignSystem) → (patch_design u d ≡ none) ↔ NilColors u d
unfolding patch_design merge_design
patch_design-none none d = ((λ e. ground arith), λ h. absurd h)
patch_design-none (some u) none = ((λ e. ground arith), λ h. absurd h)
patch_design-none (some u) (some d) =
    let (there, back) = merge_colors-none u.colors d.colors in
    let (out, into) = merge_design_none u d (merge_colors u.colors d.colors) in
    ((λ e. there (out e)), λ h. into (back h))

modify_endpoint_new :
    (m : EndpointSpec) (eps : List EndpointSpec)
    → All (λ ep. same ep.action m.action ≡ false) eps
    → modify_endpoint m eps ≡ eps ++ (m ∷ [])
unfolding modify_endpoint
modify_endpoint_new m [] h = refl
modify_endpoint_new m (ep ∷ eps) (h, hs) = ground (arith, modify_endpoint_new m eps hs)

module _ {J : Type 0} where
  with_design-none :
      (patch : PlanPatch J) (p : Plan J) (o : Option (Option DesignSystem))
      → (with_design patch p o ≡ none) ↔ (o ≡ none)
  with_design-none patch p none = ((λ e. refl), λ e. refl)
  with_design-none patch p (some d) = ((λ e. cc), λ e. cc)

  -- ApplyPatch panics exactly if the patch brings colors and the plan has a design system whose map of colors is nil.
  pub apply_patch-none :
      (patch : PlanPatch J) (p : Plan J)
      → (apply_patch patch p ≡ none) ↔ NilColors patch.update_design_system p.design_system
  unfolding apply_patch
  apply_patch-none patch p =
      let (out, into) =
        with_design-none patch p (patch_design patch.update_design_system p.design_system) in
      let (there, back) = patch_design-none patch.update_design_system p.design_system in
      ((λ e. there (out e)), λ h. into (back h))

  -- The exclusions of a plan hold for the endpoints that a patch adds and not for those that it modifies: on a plan without an endpoint of the action, a modification appends it, whatever the exclusions, and of the added endpoints those are appended that the exclusions allow.
  pub patch_endpoints_new :
      (patch : PlanPatch J) (p : Plan J) (m : EndpointSpec)
      → patch.modify_endpoints ≡ m ∷ []
      → All (λ ep. same ep.action m.action ≡ false) p.endpoints
      → patch_endpoints patch p
        ≡ (p.endpoints ++ (m ∷ [])) ++ filter_endpoints p.exclusions patch.add_endpoints
  unfolding patch_endpoints modify_endpoints
  patch_endpoints_new patch p m e h =
      ap (λ (l : List EndpointSpec). l ++ filter_endpoints p.exclusions patch.add_endpoints)
        (ap (λ ms. modify_endpoints ms p.endpoints) e ∙ modify_endpoint_new m p.endpoints h)

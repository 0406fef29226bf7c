-- ===== src/Brain/Plan/Patch/Pages.antt =====
-- brain/plan.go, ApplyPatch: what the three loops over the pages come to.
use ho.Prelude.{
  ◌≡◌, refl, sym, ap, subst, ◌∙◌, Bool, false, not, ◌&&◌, inl, inr, List, [], ◌∷◌, ◌++◌, map,
  select, any, if◌then◌else◌, Bool-cases, arith,
}
use ho.Prelude.Bytes.{Bytes, same, same_eq}
use ho.Brain.Plan.{PageSpec, PlanPatch}
use ho.Brain.Plan.Patch.{remove_page, remove_pages, modify_page, modify_pages, patch_pages}

abbrev pub has_path : Bytes → List PageSpec → Bool
has_path path = any (λ pg. same pg.path path)

-- No two pages have one path, as ValidatePlan wants it.
abbrev pub DistinctPaths : List PageSpec → Type 0
DistinctPaths [] = Unit
DistinctPaths (pg ∷ pages) = (has_path pg.path pages ≡ false) × DistinctPaths pages

abbrev not_at : Bytes → PageSpec → Bool
not_at path pg = not (same pg.path path)

select_absent :
    (path : Bytes) (pages : List PageSpec)
    → has_path path pages ≡ false
    → select (not_at path) pages ≡ pages
select_absent path [] h = refl
select_absent path (pg ∷ pages) h = ground (arith, select_absent path pages)

remove_page-select :
    (path : Bytes) (pages : List PageSpec)
    → DistinctPaths pages
    → remove_page path pages ≡ select (not_at path) pages
unfolding remove_page
remove_page-select path [] d = refl
remove_page-select path (pg ∷ pages) (new, d) = elim (Bool-cases (same pg.path path)) [
  | inl hit ↦
      let gone : has_path path pages ≡ false =
        subst (λ x. has_path x pages ≡ false) (same_eq pg.path path hit) new in
      rw hit (sym (select_absent path pages gone))
  | inr miss ↦ rw (miss, remove_page-select path pages d)
]

has_path-select :
    (p : PageSpec → Bool) (path : Bytes) (pages : List PageSpec)
    → has_path path pages ≡ false
    → has_path path (select p pages) ≡ false
has_path-select p path [] h = refl
has_path-select p path (pg ∷ pages) h = ground (arith, has_path-select p path pages)

DistinctPaths-select :
    (p : PageSpec → Bool) (pages : List PageSpec)
    → DistinctPaths pages
    → DistinctPaths (select p pages)
DistinctPaths-select p [] d = tt
DistinctPaths-select p (pg ∷ pages) (new, d) = elim (Bool-cases (p pg)) [
  | inl e ↦ rw e (has_path-select p pg.path pages new, DistinctPaths-select p pages d)
  | inr e ↦ rw e (DistinctPaths-select p pages d)
]

select-select :
    (p q r : PageSpec → Bool) (pages : List PageSpec)
    → ((pg : PageSpec) → r pg ≡ (q pg && p pg))
    → select p (select q pages) ≡ select r pages
select-select p q r [] h = refl
select-select p q r (pg ∷ pages) h = ground (arith, select-select p q r pages h, h pg)

-- A page that none of the paths names.
abbrev pub is_kept : List Bytes → PageSpec → Bool
is_kept paths pg = not (any (λ path. same pg.path path) paths)

select_all : (pages : List PageSpec) → select (is_kept []) pages ≡ pages
select_all [] = refl
select_all (pg ∷ pages) = ap (λ rest. pg ∷ rest) (select_all pages)

pub remove_pages-select :
    (paths : List Bytes) (pages : List PageSpec)
    → DistinctPaths pages
    → remove_pages paths pages ≡ select (is_kept paths) pages
unfolding remove_pages
remove_pages-select [] pages d = sym (select_all pages)
remove_pages-select (path ∷ paths) pages d = rw (remove_page-select path pages d) (
    remove_pages-select paths (select (not_at path) pages)
      (DistinctPaths-select (not_at path) pages d)
    ∙ select-select (is_kept paths) (not_at path) (is_kept (path ∷ paths)) pages λ pg. ground arith)

abbrev replace : PageSpec → PageSpec → PageSpec
replace m pg = if same pg.path m.path then m else pg

-- The last modification of the page's path, or the page itself.
abbrev pub modified : List PageSpec → PageSpec → PageSpec
modified [] pg = pg
modified (m ∷ mods) pg = modified mods (replace m pg)

path-replace : (m pg : PageSpec) → (replace m pg).path ≡ pg.path
path-replace m pg = elim (Bool-cases (same pg.path m.path)) [
  | inl e ↦ rw e (sym (same_eq pg.path m.path e))
  | inr e ↦ rw e
]

has_path-replace :
    (m : PageSpec) (path : Bytes) (pages : List PageSpec)
    → has_path path (map (replace m) pages) ≡ has_path path pages
has_path-replace m path [] = refl
has_path-replace m path (pg ∷ pages) = rw (path-replace m pg, has_path-replace m path pages)

DistinctPaths-replace :
    (m : PageSpec) (pages : List PageSpec)
    → DistinctPaths pages
    → DistinctPaths (map (replace m) pages)
DistinctPaths-replace m [] d = tt
DistinctPaths-replace m (pg ∷ pages) (new, d) =
    (rw (path-replace m pg, has_path-replace m pg.path pages) new, DistinctPaths-replace m pages d)

replace_absent :
    (m : PageSpec) (pages : List PageSpec)
    → has_path m.path pages ≡ false
    → map (replace m) pages ≡ pages
replace_absent m [] h = refl
replace_absent m (pg ∷ pages) h = ground (arith, replace_absent m pages)

modify_page-map :
    (m : PageSpec) (pages : List PageSpec)
    → DistinctPaths pages
    → modify_page m pages ≡ map (replace m) pages
unfolding modify_page
modify_page-map m [] d = refl
modify_page-map m (pg ∷ pages) (new, d) = elim (Bool-cases (same pg.path m.path)) [
  | inl hit ↦
      let gone : has_path m.path pages ≡ false =
        subst (λ x. has_path x pages ≡ false) (same_eq pg.path m.path hit) new in
      rw hit (ap (λ rest. m ∷ rest) (sym (replace_absent m pages gone)))
  | inr miss ↦ rw miss (ap (λ rest. pg ∷ rest) (modify_page-map m pages d))
]

map-map :
    (f g : PageSpec → PageSpec) (pages : List PageSpec)
    → map g (map f pages) ≡ map (λ pg. g (f pg)) pages
map-map f g [] = refl
map-map f g (pg ∷ pages) = ap (λ rest. g (f pg) ∷ rest) (map-map f g pages)

map_same : (pages : List PageSpec) → map (modified []) pages ≡ pages
map_same [] = refl
map_same (pg ∷ pages) = ap (λ rest. pg ∷ rest) (map_same pages)

pub modify_pages-map :
    (mods pages : List PageSpec)
    → DistinctPaths pages
    → modify_pages mods pages ≡ map (modified mods) pages
unfolding modify_pages
modify_pages-map [] pages d = sym (map_same pages)
modify_pages-map (m ∷ mods) pages d = rw (modify_page-map m pages d) (
    modify_pages-map mods (map (replace m) pages) (DistinctPaths-replace m pages d)
    ∙ map-map (replace m) (modified mods) pages)

module _ {J : Type 0} where
  -- On a plan with distinct page paths the loops come to this: the pages that no removal names, in their order, each as its last modification has it, and then the added pages.
  pub patch_pages-eq :
      (patch : PlanPatch J) (pages : List PageSpec)
      → DistinctPaths pages
      → patch_pages patch pages
        ≡ map (modified patch.modify_pages) (select (is_kept patch.remove_pages) pages)
          ++ patch.add_pages
  unfolding patch_pages
  patch_pages-eq patch pages d = rw (remove_pages-select patch.remove_pages pages d) (
      ap (λ (l : List PageSpec). l ++ patch.add_pages)
        (modify_pages-map patch.modify_pages (select (is_kept patch.remove_pages) pages)
          (DistinctPaths-select (is_kept patch.remove_pages) pages d)))

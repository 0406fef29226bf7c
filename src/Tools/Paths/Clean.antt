-- ===== src/Tools/Paths/Clean.antt =====
-- The names of stored files stay inside their storage (tools/storage.go).
use ho.Tools.Paths.{without_root, sanitize_path, cut_prefix, sanitize_filename}
use ho.Server.Api.Folder.{
  slash, to_slashes, clean_parts, sanitize_upload_folder, sanitize_upload_folder-IsInside, IsClean,
  IsInside,
}
use ho.Prelude.{ℕ, ◌≡◌, refl, sym, ap, ◌∙◌, subst, inl, inr, true}
use ho.Prelude.{List, [], ◌∷◌, ◌++◌, arith, ◌==◌, Bool-cases, All, length, drop, ==_iff}
use ho.Prelude.Bytes.{Bytes, split, join, push, trim_left, has_prefix}
use mathlib.Core.List.{append_assoc}

trim_left-clean_parts :
    (s : Bytes)
    → clean_parts (split slash (trim_left (λ c. c == slash) s)) ≡ clean_parts (split slash s)
trim_left-clean_parts [] = refl
trim_left-clean_parts (c ∷ s) = elim (Bool-cases (c == slash)) [
  | inl e ↦ rw e (trim_left-clean_parts s)
  | inr e ↦
      let kept : trim_left (λ c. c == slash) (c ∷ s) ≡ c ∷ s = rw e refl in
      ap (λ t. clean_parts (split slash t)) kept
]

without_root-clean_parts :
    (s : Bytes) → clean_parts (split slash (without_root s)) ≡ clean_parts (split slash s)
without_root-clean_parts s = elim (Bool-cases (has_prefix s (slash ∷ []))) [
  | inl e ↦ rw e (trim_left-clean_parts s)
  | inr e ↦ rw e refl
]

-- sanitizePath of the tools and sanitizeUploadFolder of the public server, which does not look at leading
-- slashes, give the same.
pub sanitize_path-sanitize_upload_folder :
    (name : Bytes) → sanitize_path name ≡ sanitize_upload_folder name
unfolding sanitize_path sanitize_upload_folder
sanitize_path-sanitize_upload_folder [] = refl
sanitize_path-sanitize_upload_folder (c ∷ name) =
    ap (join (slash ∷ [])) (without_root-clean_parts (to_slashes (c ∷ name)))

prefix-drop : (s p : Bytes) → has_prefix s p ≡ true → s ≡ p ++ drop (length p) s
prefix-drop s [] h = refl
prefix-drop [] (b ∷ p) h = absurd (ground arith)
prefix-drop (c ∷ s) (b ∷ p) h =
    let same_head : c ≡ b = ground (arith, ==_iff c b) in
    let same_rest : has_prefix s p ≡ true = ground arith in
    ap (λ x. x ∷ s) same_head ∙ ap (λ t. b ∷ t) (prefix-drop s p same_rest)

abbrev rest_of : List Bytes → List Bytes
rest_of [] = []
rest_of (w ∷ ws) = ws

rest_of-push : (c : ℕ) (ws : List Bytes) → rest_of (push c ws) ≡ rest_of ws
rest_of-push c [] = refl
rest_of-push c (w ∷ ws) = refl

rest_of-All : (ws : List Bytes) → All IsClean ws → All IsClean (rest_of ws)
rest_of-All [] h = tt
rest_of-All (w ∷ ws) h = h.1

-- The parts of what follows a separator.
after_slash :
    (s rest : Bytes)
    → All IsClean (rest_of (split slash (s ++ (slash ∷ rest))))
    → All IsClean (split slash rest)
after_slash [] rest h = h
after_slash (c ∷ s) rest h = elim (Bool-cases (c == slash)) [
  | inl e ↦
      let h' = rw e at h in after_slash s rest (rest_of-All (split slash (s ++ (slash ∷ rest))) h')
  | inr e ↦
      let h' = rw e at h in
      after_slash s rest
        (subst (All IsClean) (rest_of-push c (split slash (s ++ (slash ∷ rest)))) h')
]

parts_of_inside : (s : Bytes) → IsInside s → All IsClean (rest_of (split slash s))
parts_of_inside [] h = tt
parts_of_inside (c ∷ s) h = rest_of-All (split slash (c ∷ s)) h

inside : (s : Bytes) → All IsClean (split slash s) → IsInside s
inside [] h = tt
inside (c ∷ s) h = h

cut_prefix-IsInside :
    (name dir : Bytes) → IsInside name → IsInside (cut_prefix name (dir ++ (slash ∷ [])))
cut_prefix-IsInside name dir h =
    let prefix = dir ++ (slash ∷ []) in
    elim (Bool-cases (has_prefix name prefix)) [
      | inr e ↦ rw e h
      | inl e ↦
          let rest = drop (length prefix) name in
          let whole : name ≡ dir ++ (slash ∷ rest) =
            prefix-drop name prefix e ∙ append_assoc dir (slash ∷ []) rest in
          rw e (
            inside rest (
              after_slash dir rest (
                subst (λ s. All IsClean (rest_of (split slash s))) whole (parts_of_inside name h))))
    ]

-- The name of a stored file, the prefix of its storage taken off, is empty, or a path whose parts are no
-- "", "." or "..".
pub sanitize_filename-IsInside :
    (name storage_dir : Bytes) → IsInside (sanitize_filename name storage_dir)
unfolding sanitize_filename
sanitize_filename-IsInside name storage_dir = cut_prefix-IsInside (sanitize_path name) storage_dir (
    subst IsInside (sym (sanitize_path-sanitize_upload_folder name))
      (sanitize_upload_folder-IsInside name))

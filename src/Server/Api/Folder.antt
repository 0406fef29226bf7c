-- ===== src/Server/Api/Folder.antt =====
-- The folder of an upload: sanitizeUploadFolder of server/public/handler.go.
use ho.Prelude.{ℕ, ◌≡◌, refl, sym, ap, ◌∙◌, subst}
use ho.Prelude.{inl, inr, Bool, false, not, ◌||◌}
use ho.Prelude.{List, [], ◌∷◌, ◌++◌, map, arith, if◌then◌else◌, ◌==◌, Bool-cases}
use ho.Prelude.{All, select}
use ho.Prelude.{All-map}
use mathlib.Core.List.{reverse, reverse-cons}
use ho.Prelude.Bytes.{
  Bytes, codes, same, split, join, trim_space, push, has_byte, trim_left, is_space, split-join,
}

abbrev pub slash : ℕ
slash = 47

abbrev pub backslash : ℕ
backslash = 92

-- strings.ReplaceAll(folder, "\\", "/")
abbrev pub to_slashes : Bytes → Bytes
to_slashes = map (λ c. if c == backslash then slash else c)

-- "", "." or ".."
abbrev pub is_skipped : Bytes → Bool
is_skipped p = same p [] || (same p (codes ".") || same p (codes ".."))

abbrev pub clean_parts : List Bytes → List Bytes
clean_parts ps = select (λ p. not (is_skipped p)) (map trim_space ps)

unfoldable pub sanitize_upload_folder : Bytes → Bytes
sanitize_upload_folder [] = []
sanitize_upload_folder (c ∷ folder) =
    join (slash ∷ []) (clean_parts (split slash (to_slashes (c ∷ folder))))

-- A part of a clean path: no place that is the folder itself or the one above, and no separator.
abbrev pub IsClean : Bytes → Type 0
IsClean p = (is_skipped p ≡ false) × (has_byte slash p ≡ false)

-- The parts of the folder that is given back are clean, so that it does not lead out of where it is put;
-- or it is empty.
abbrev pub IsInside : Bytes → Type 0
IsInside [] = Unit
IsInside (c ∷ folder) = All IsClean (split slash (c ∷ folder))

push_parts :
    (b c : ℕ) (ws : List Bytes)
    → (c == b) ≡ false
    → All (λ p. has_byte b p ≡ false) ws
    → All (λ p. has_byte b p ≡ false) (push c ws)
push_parts b c [] e h = (rw e refl, tt)
push_parts b c (w ∷ ws) e h = (rw (e, h.0) refl, h.1)

split_parts : (b : ℕ) (s : Bytes) → All (λ p. has_byte b p ≡ false) (split b s)
split_parts b [] = (refl, tt)
split_parts b (c ∷ s) = elim (Bool-cases (c == b)) [
  | inl e ↦ rw e ((refl, split_parts b s))
  | inr e ↦ rw e (push_parts b c (split b s) e (split_parts b s))
]

trim_left_apart :
    (p : ℕ → Bool) (b : ℕ) (s : Bytes) → has_byte b s ≡ false → has_byte b (trim_left p s) ≡ false
trim_left_apart p b [] h = refl
trim_left_apart p b (c ∷ s) h = ground (arith, h, trim_left_apart p b s)

has_byte-append : (b : ℕ) (s t : Bytes) → has_byte b (s ++ t) ≡ (has_byte b s || has_byte b t)
has_byte-append b [] t = refl
has_byte-append b (c ∷ s) t = ground (arith, has_byte-append b s t)

swap_or : (x y : Bool) → (x || (y || false)) ≡ (y || x)
swap_or x y = ground arith

has_byte-reverse : (b : ℕ) (s : Bytes) → has_byte b (reverse s) ≡ has_byte b s
has_byte-reverse b [] = refl
has_byte-reverse b (c ∷ s) =
    ap (has_byte b) (reverse-cons c s)
    ∙ has_byte-append b (reverse s) (c ∷ [])
    ∙ swap_or (has_byte b (reverse s)) (c == b)
    ∙ ap (λ x. (c == b) || x) (has_byte-reverse b s)

trim_space_apart : (b : ℕ) (s : Bytes) → has_byte b s ≡ false → has_byte b (trim_space s) ≡ false
trim_space_apart b s h =
    let left = trim_left is_space s in
    has_byte-reverse b (trim_left is_space (reverse left))
    ∙ trim_left_apart is_space b (reverse left)
        (has_byte-reverse b left ∙ trim_left_apart is_space b s h)

clean_parts-IsClean :
    (ps : List Bytes) → All (λ p. has_byte slash p ≡ false) ps → All IsClean (clean_parts ps)
clean_parts-IsClean [] h = tt
clean_parts-IsClean (p ∷ ps) h = elim (Bool-cases (is_skipped (trim_space p))) [
  | inl e ↦ rw e (clean_parts-IsClean ps h.1)
  | inr e ↦ rw e (((e, trim_space_apart slash p h.0), clean_parts-IsClean ps h.1))
]

inside : (s : Bytes) → All IsClean (split slash s) → IsInside s
inside [] h = tt
inside (c ∷ s) h = h

join-IsInside : (ps : List Bytes) → All IsClean ps → IsInside (join (slash ∷ []) ps)
join-IsInside [] h = tt
join-IsInside (p ∷ ps) h =
    let apart = All-map (λ q c. c.1) (p ∷ ps) h in
    inside (join (slash ∷ []) (p ∷ ps)) (subst (All IsClean) (sym (split-join slash p ps apart)) h)

-- The folder of an upload is empty, or a path whose parts are no "", "." or "..": it stays inside the
-- place where it is put.
pub sanitize_upload_folder-IsInside : (folder : Bytes) → IsInside (sanitize_upload_folder folder)
unfolding sanitize_upload_folder
sanitize_upload_folder-IsInside [] = tt
sanitize_upload_folder-IsInside (c ∷ folder) =
    let parts = split slash (to_slashes (c ∷ folder)) in
    join-IsInside (clean_parts parts)
      (clean_parts-IsClean parts (split_parts slash (to_slashes (c ∷ folder))))

-- ===== src/Tools/Editing/Patches.antt =====
-- Search and replace: applyPatches and replaceNear of tools/editing.go.
use ho.Prelude.{ℕ, zero, suc, ◌+◌, ◌-◌, ◌/◌}
use ho.Prelude.{Bool, true, false, not, ◌&&◌, Option, none, some}
use ho.Prelude.{List, [], ◌∷◌, ◌++◌, if◌then◌else◌, ltb, ◌==◌}
use ho.Prelude.{length, take, drop}
use ho.Prelude.Int.{ℤ, pos, negsuc}
use ho.Prelude.Bytes.{Bytes, has_prefix}

pub record Patch : Type 0 where
  pub search : Bytes
  pub replace : Bytes
  pub count : ℤ
  pub near : Bytes

-- The label and the number of matches of a warning.
pub record PatchResult : Type 0 where
  pub applied : List Bytes
  pub not_found : List Bytes
  pub warnings : List (Bytes × ℕ)

abbrev pub is_nil : Bytes → Bool
is_nil [] = true
is_nil (c ∷ s) = false

-- The offset of a match, one byte further on.
abbrev pub later : Option ℕ → Option ℕ
later none = none
later (some i) = some (suc i)

-- strings.Index
abbrev pub index : Bytes → Bytes → Option ℕ
index [] p = if has_prefix [] p then some 0 else none
index (c ∷ s) p = if has_prefix (c ∷ s) p then some 0 else later (index s p)

-- strings.Count for a text that is not empty: `skip` bytes belong to a match that is counted already.
abbrev pub count_from : ℕ → Bytes → Bytes → ℕ
count_from skip p [] = 0
count_from (suc skip) p (c ∷ s) = count_from skip p s
count_from zero p (c ∷ s) =
    if has_prefix (c ∷ s) p then suc (count_from (length p - 1) p s) else count_from 0 p s

-- One less to replace; `none` is a limit below 0, which is none at all.
abbrev pub lower : Option ℕ → Option ℕ
lower none = none
lower (some n) = some (n - 1)

abbrev pub is_open : Option ℕ → Bool
is_open none = true
is_open (some n) = ltb 0 n

-- strings.Replace for a search that is not empty, at most `limit` times.
abbrev pub replace_from : ℕ → Option ℕ → Bytes → Bytes → Bytes → Bytes
replace_from skip limit p r [] = []
replace_from (suc skip) limit p r (c ∷ s) = replace_from skip limit p r s
replace_from zero limit p r (c ∷ s) =
    if is_open limit && has_prefix (c ∷ s) p
    then r ++ replace_from (length p - 1) (lower limit) p r s
    else c ∷ replace_from 0 limit p r s

-- |a - b|
abbrev pub distance : ℕ → ℕ → ℕ
distance a b = (a - b) + (b - a)

-- The distance from the middle of the match at `i`.
abbrev pub gap : ℕ → Bytes → ℕ → ℕ
gap center p i = distance (i + length p / 2) center

-- The best place so far and its distance, with the place at `offset` tried.
unfoldable pub nearer : ℕ → Bytes → ℕ → Bytes → Option ℕ × ℕ → Option ℕ × ℕ
nearer center p offset s best =
    if has_prefix s p && ltb (gap center p offset) (best.1)
    then (some offset, gap center p offset)
    else best

-- The loop of replaceNear over the matches.
unfoldable pub closest : ℕ → Bytes → ℕ → Option ℕ × ℕ → Bytes → Option ℕ × ℕ
closest center p offset best [] = best
closest center p offset best (c ∷ s) =
    closest center p (suc offset) (nearer center p offset (c ∷ s) best) s

-- content[:i] + replace + content[i+len(search):]
abbrev pub replace_at : ℕ → Bytes → Bytes → Bytes → Bytes
replace_at i p r content = take i content ++ (r ++ drop (i + length p) content)

abbrev pub replace_found : Option ℕ → Bytes → Bytes → Bytes → Bytes
replace_found none p r content = content
replace_found (some i) p r content = replace_at i p r content

-- By where the context is: without it the first match is replaced.
abbrev pub replace_by : Option ℕ → Bytes → Bytes → Bytes → Bytes → Bytes
replace_by none content p r near = replace_from 0 (some 1) p r content
replace_by (some at) content p r near =
    let center = at + length near / 2 in
    replace_found ((closest center p 0 (none, length content) content).0) p r content

unfoldable pub replace_near : Bytes → Bytes → Bytes → Bytes → Bytes
replace_near content p r near = replace_by (index content near) content p r near

-- The third argument of strings.Replace: the first match unless the patch says otherwise.
abbrev pub limit_of : ℤ → Option ℕ
limit_of (pos zero) = some 1
limit_of (pos (suc n)) = some (suc n)
limit_of (negsuc zero) = none
limit_of (negsuc (suc n)) = some 1

abbrev pub is_all : ℤ → Bool
is_all (negsuc zero) = true
is_all i = false

-- The first 60 bytes of a longer search.
abbrev pub label_of : Bytes → Bytes
label_of p = if ltb 60 (length p) then take 60 p ++ (46 ∷ 46 ∷ 46 ∷ []) else p

abbrev pub replaced : Patch → Bytes → Bytes
replaced p content =
    if not (is_nil p.near) && ltb 1 (count_from 0 p.search content)
    then replace_near content p.search p.replace p.near
    else replace_from 0 (limit_of p.count) p.search p.replace content

abbrev pub warns : Patch → ℕ → Bool
warns p occurrences = ltb 1 occurrences && (not (is_all p.count) && is_nil p.near)

abbrev pub record_applied : Patch → ℕ → PatchResult → PatchResult
record_applied p occurrences result = record {
  applied = result.applied ++ (label_of p.search ∷ []);
  not_found = result.not_found;
  warnings =
      if warns p occurrences
      then result.warnings ++ ((label_of p.search, occurrences) ∷ [])
      else result.warnings;
}

abbrev pub record_missing : Patch → PatchResult → PatchResult
record_missing p result = record {
  applied = result.applied;
  not_found = result.not_found ++ (p.search ∷ []);
  warnings = result.warnings;
}

-- The body of the loop over the patches.
unfoldable pub apply_patch : Patch → Bytes × PatchResult → Bytes × PatchResult
apply_patch p (content, result) =
    let occurrences = count_from 0 p.search content in
    if is_nil p.search
    then (content, result)
    else if occurrences == 0
    then (content, record_missing p result)
    else (replaced p content, record_applied p occurrences result)

unfoldable pub apply_all : List Patch → Bytes × PatchResult → Bytes × PatchResult
apply_all [] state = state
apply_all (p ∷ ps) state = apply_all ps (apply_patch p state)

unfoldable pub apply_patches : Bytes → List Patch → Bytes × PatchResult
apply_patches content patches =
    apply_all patches (content, record { applied = []; not_found = []; warnings = [] })

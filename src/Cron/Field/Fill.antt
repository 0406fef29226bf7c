-- ===== src/Cron/Field/Fill.antt =====
-- internal/cron/cron.go, parseField: the loop that puts a stepped range into the set.
use ho.Prelude.{
  ℕ, zero, suc, ◌+◌, ◌-◌, ◌%◌, ◌≤◌, ◌<◌, ◌≡◌, Bool, true, false, ◌&&◌, ◌||◌, List, ◌∷◌, some, inl,
  inr, leb, ◌==◌, Bool-cases, arith,
}
use native.Mathlib.Nat.{mod-eq_of_lt, add-mod_right}
use ho.Prelude.Int.{ℤ, pos, int_limit, add_step_pos}
use ho.Cron.Field.{fill, has}

-- v is one of i, i + step, i + 2 * step, ... up to last.
abbrev pub on_grid : ℕ → ℕ → ℕ → ℕ → Bool
on_grid i last step v = leb i v && leb v last && (v - i) % step == 0

shift : (i step v : ℕ) → leb (i + step) v ≡ true → (v - i) % step ≡ (v - (i + step)) % step
shift i step v h =
    let e : v - i ≡ (v - (i + step)) + step = ground arith in
    rw e (add-mod_right (v - (i + step)) step)

shift_near : (i step v : ℕ) → 0 < step → leb (i + step) v ≡ false → (v - i) % step ≡ v - i
shift_near i step v sp h = mod-eq_of_lt (ground arith)

-- A grid is its first point and the grid that starts one step further.
on_grid-add :
    (i last step v : ℕ)
    → 0 < step
    → i ≤ last
    → on_grid i last step v ≡ (i == v || on_grid (i + step) last step v)
on_grid-add i last step v sp le = elim (Bool-cases (leb (i + step) v)) [
  | inl far ↦ ground (arith, shift i step v far)
  | inr near ↦ ground (arith, shift_near i step v sp near)
]

-- Within the limit of int, enough fuel ends the loop, and the set has gained exactly the grid.
pub fill_lem :
    (fuel i last step : ℕ) (set : List ℤ)
    → 0 < step
    → last + step < int_limit
    → 0 < fuel
    → last + 1 < i + fuel
    → (out : List ℤ) × (fill fuel (pos i) (pos last) step set ≡ some out)
      × ((v : ℕ) → has v out ≡ (has v set || on_grid i last step v))
unfolding fill
fill_lem zero i last step set sp lim f h = absurd (omega arith)
fill_lem (suc fuel) i last step set sp lim f h = elim (Bool-cases (leb i last)) [
  | inl more ↦
      let (out, e, spec) =
        fill_lem fuel (i + step) last step (pos i ∷ set) sp lim (ground arith) (ground arith) in
      (
        out,
        ground (arith, e, add_step_pos i step),
        λ v. ground (arith, spec v, on_grid-add i last step v sp (ground arith)),
      )
  | inr done ↦ (set, rw (done, fill), λ v. ground arith)
]

-- A grid holds its start, and a grid of one point nothing else.
pub on_grid-start : (i last step : ℕ) → i ≤ last → 0 < step → on_grid i last step i ≡ true
on_grid-start i last step h sp =
    let e : (i - i) % step ≡ i - i = mod-eq_of_lt (omega arith) in ground (arith, e)

pub on_grid-single : (n v : ℕ) (b : Bool) → (n == v || b) ≡ (b || on_grid n n 1 v)
on_grid-single n v true = ground arith
on_grid-single n v false = ground arith

-- ===== src/Prelude/Result.antt =====
-- What a function that returns a value and an error gives.

pub data Result (E A : Type 0) : Type 0 where
  err : E → Result E A
  ok : A → Result E A

module _ {E A B : Type 0} where
  abbrev pub and_then : Result E A → (A → Result E B) → Result E B
  and_then (err e) f = err e
  and_then (ok a) f = f a

-- `err == nil`
abbrev pub IsOk : {E A : Type 0} → Result E A → Type 0
IsOk (err e) = ⊥
IsOk (ok a) = Unit

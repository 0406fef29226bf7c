-- ===== src/Llm/Default.antt =====
-- The default provider is one that is registered (llm/registry.go).
use ho.Llm.{Providers, is_nil, register, default_provider, set_default}
use ho.Prelude.{◌≡◌, refl, sym, ◌∙◌}
use ho.Prelude.{inl, inr, Bool, true, false, not}
use ho.Prelude.{List, [], ◌∷◌, arith, Bool-cases}
use ho.Prelude.{All, any}
use ho.Prelude.Bytes.{Bytes, same, same_refl}
use ho.Prelude.Dict.{
  bytes_eq, put, has_key, IsDict, put-IsDict, has_key-put, is_found, has_key-find,
}

pub data Op (P : Type 0) : Type 0 where
  do_register : Bytes → P → Op P
  do_set_default : Bytes → Op P

-- Some provider has a name that is not empty.
abbrev pub has_named : {P : Type 0} → List (Bytes × P) → Bool
has_named ps = any (λ entry. not (is_nil entry.0)) ps

module _ {P : Type 0} where
  unfoldable pub apply : Op P → Providers P → Providers P
  apply (do_register name p) r = register name p r
  apply (do_set_default name) r = (set_default name r).1

  unfoldable pub run : List (Op P) → Providers P → Providers P
  run [] r = r
  run (op ∷ ops) r = run ops (apply op r)

  -- The default is registered; with no default, no provider has a name, but the empty one.
  abbrev Holds : Bool → Providers P → Type 0
  Holds true r = has_named r.providers ≡ false
  Holds false r = has_key r.default_name r.providers ≡ true

  abbrev pub IsValid : Providers P → Type 0
  IsValid r = IsDict r.providers × Holds (is_nil r.default_name) r

-- No empty name is used.
abbrev pub IsNamed : {P : Type 0} → Op P → Type 0
IsNamed (do_register name p) = is_nil name ≡ false
IsNamed (do_set_default name) = is_nil name ≡ false

nil_apart : (a b : Bytes) → is_nil a ≡ false → same b a ≡ true → is_nil b ≡ false
nil_apart a [] h e = ground (arith, h, e)
nil_apart a (c ∷ b) h e = refl

module _ {P : Type 0} where
  key_named :
      (name : Bytes) (ps : List (Bytes × P))
      → is_nil name ≡ false
      → has_key name ps ≡ true
      → has_named ps ≡ true
  key_named name [] n h = cc
  key_named name ((k, p) ∷ ps) n h = elim (Bool-cases (same k name)) [
    | inl e ↦ rw (nil_apart name k n e) refl
    | inr e ↦ let h' = rw e at h in let rest = key_named name ps n h' in rw rest (ground arith)
  ]

  register-IsValid :
      (name : Bytes) (p : P) (r : Providers P)
      → is_nil name ≡ false
      → IsValid r
      → IsValid (register name p r)
  unfolding register
  register-IsValid name p r n v = elim (Bool-cases (is_nil r.default_name)) [
    | inl e ↦
        let here : has_key name (put name p r.providers) ≡ true =
          has_key-put name name p r.providers ∙ rw (same_refl name) refl in
        rw (e, n) ((put-IsDict name p r.providers v.0, here))
    | inr e ↦
        let old : has_key r.default_name r.providers ≡ true = rw e at v.1 in
        let still : has_key r.default_name (put name p r.providers) ≡ true =
          has_key-put name r.default_name p r.providers ∙ rw old (ground arith) in
        rw (e, e) ((put-IsDict name p r.providers v.0, still))
  ]

  set_default-IsValid :
      (name : Bytes) (r : Providers P)
      → is_nil name ≡ false
      → IsValid r
      → IsValid (set_default name r).1
  unfolding set_default
  set_default-IsValid name r n v = elim (Bool-cases (has_key name r.providers)) [
    | inl e ↦ rw (e, n) ((v.0, e))
    | inr e ↦ rw e v
  ]

  run-IsValid :
      (ops : List (Op P)) (r : Providers P) → All IsNamed ops → IsValid r → IsValid (run ops r)
  unfolding run apply
  run-IsValid [] r n v = v
  run-IsValid (do_register name p ∷ ops) r n v =
      run-IsValid ops (register name p r) n.1 (register-IsValid name p r n.0 v)
  run-IsValid (do_set_default name ∷ ops) r n v =
      run-IsValid ops (set_default name r).1 n.1 (set_default-IsValid name r n.0 v)

  default_provider-IsValid :
      (r : Providers P) → IsValid r → is_found (default_provider r) ≡ has_named r.providers
  unfolding default_provider
  default_provider-IsValid r v = elim (Bool-cases (is_nil r.default_name)) [
    | inl e ↦ let none_named = rw e at v.1 in rw (e, none_named) refl
    | inr e ↦
        let there : has_key r.default_name r.providers ≡ true = rw e at v.1 in
        rw (e, key_named r.default_name r.providers e there)
          (sym (has_key-find r.default_name r.providers) ∙ there)
  ]

  -- After any registrations and choices of a default, under names that are not empty, there is a default
  -- provider exactly if a provider is registered.
  pub run-default_provider :
      (ops : List (Op P)) (r : Providers P)
      → All IsNamed ops
      → IsValid r
      → is_found (default_provider (run ops r)) ≡ has_named (run ops r).providers
  run-default_provider ops r n v = default_provider-IsValid (run ops r) (run-IsValid ops r n v)

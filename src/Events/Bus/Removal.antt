-- ===== src/Events/Bus/Removal.antt =====
-- events/bus.go: identifiers stay unique, and Unsubscribe removes just the one subscription.
use ho.Prelude.{
  ℕ, ◌+◌, ◌≤◌, ◌<◌, ◌≡◌, refl, sym, not, inl, inr, String, List, [], ◌∷◌, ◌++◌, Option, none, some,
  ◌==◌, str_eq, if◌then◌else◌, select, arith, Bool-cases,
}
use ho.Events.Bus.{
  Subscription, Bus, subscriptions, append_to, subscribe, subscribe_all, cut_out, cut_typed,
  cut_either, unsubscribe, at_key,
}

module _ {H : Type 0} where
  -- How many subscriptions of the list have the id.
  abbrev pub count_id : ℕ → List (Subscription H) → ℕ
  count_id id [] = 0
  count_id id (s ∷ subs) = (if s.id == id then 1 else 0) + count_id id subs

  abbrev pub count_typed : ℕ → List (String × List (Subscription H)) → ℕ
  count_typed id [] = 0
  count_typed id ((k, subs) ∷ rest) = count_id id subs + count_typed id rest

  abbrev pub count_bus : ℕ → Bus H → ℕ
  count_bus id b = count_typed id b.handlers + count_id id b.global

  -- Every id is used once at most, and only ids that were given out are used.
  pub record IsValid (b : Bus H) : Type 0 where
    pub once : (id : ℕ) → count_bus id b ≤ 1
    pub given : (id : ℕ) → b.next_id < id → count_bus id b ≡ 0

  abbrev pub others : ℕ → List (Subscription H) → List (Subscription H)
  others id = select (λ s. not (s.id == id))

  others_of_absent :
      (id : ℕ) (subs : List (Subscription H)) → count_id id subs ≡ 0 → others id subs ≡ subs
  others_of_absent id [] h = refl
  others_of_absent id (s ∷ subs) h = ground (arith, others_of_absent id subs)

  -- What the loop over one list leaves, when the id stands there once at most.
  pub cut_out-others :
      (id : ℕ) (subs : List (Subscription H))
      → count_id id subs ≤ 1
      → cut_out id subs ≡ (if 0 == count_id id subs then none else some (others id subs))
  unfolding cut_out
  cut_out-others id [] h = refl
  cut_out-others id (s ∷ subs) h = ground (arith, cut_out-others id subs, others_of_absent id subs)

  count_id-append :
      (id : ℕ) (xs ys : List (Subscription H))
      → count_id id (xs ++ ys) ≡ count_id id xs + count_id id ys
  count_id-append id [] ys = omega arith
  count_id-append id (x ∷ xs) ys = omega (arith, count_id-append id xs ys)

  count_typed-append_to :
      (id : ℕ) (kind : String) (s : Subscription H) (m : List (String × List (Subscription H)))
      → count_typed id (append_to kind s m) ≡ count_typed id m + count_id id (s ∷ [])
  unfolding append_to
  count_typed-append_to id kind s [] = omega arith
  count_typed-append_to id kind s ((k, subs) ∷ rest) =
      ground (arith, count_typed-append_to id kind s rest, count_id-append id subs (s ∷ []))

  -- Subscribe keeps it that each id is used once at most and that only ids given out are used, as long as the counter does not wrap around.
  pub subscribe-IsValid :
      (kind : String) (handler : H) (b : Bus H)
      → b.next_id + 1 < 18446744073709551616
      → IsValid b
      → IsValid (subscribe kind handler b).0
  unfolding subscribe
  subscribe-IsValid kind handler b lim h = record {
    once = λ id. ground (
      arith,
      h.once id,
      h.given id,
      count_typed-append_to id kind (record { id = b.next_id + 1; handler = handler }) b.handlers,
    );
    given = λ id lt. ground (
      arith,
      h.given id,
      count_typed-append_to id kind (record { id = b.next_id + 1; handler = handler }) b.handlers,
    );
  }

  -- SubscribeAll keeps it that each id is used once at most and that only ids given out are used, as long as the counter does not wrap around.
  pub subscribe_all-IsValid :
      (handler : H) (b : Bus H)
      → b.next_id + 1 < 18446744073709551616
      → IsValid b
      → IsValid (subscribe_all handler b).0
  unfolding subscribe_all
  subscribe_all-IsValid handler b lim h =
      let s : Subscription H = record { id = b.next_id + 1; handler = handler } in
      record {
        once = λ id. ground (arith, h.once id, h.given id, count_id-append id b.global (s ∷ []));
        given = λ id lt. ground (arith, h.given id, count_id-append id b.global (s ∷ []));
      }

  subscriptions_of_absent :
      (id : ℕ) (kind : String) (m : List (String × List (Subscription H)))
      → count_typed id m ≡ 0
      → others id (subscriptions kind m) ≡ subscriptions kind m
  unfolding subscriptions
  subscriptions_of_absent id kind [] h = refl
  subscriptions_of_absent id kind ((k, subs) ∷ rest) h = elim (Bool-cases (str_eq k kind)) [
    | inl e ↦ rw e (others_of_absent id subs (omega arith))
    | inr e ↦ rw e (subscriptions_of_absent id kind rest (omega arith))
  ]

  abbrev Left :
      ℕ
      → List (String × List (Subscription H))
      → Option (List (String × List (Subscription H)))
      → Type 0
  Left id m none = count_typed id m ≡ 0
  Left id m (some m') =
      (count_typed id m ≡ 1)
      × ((kind : String) → subscriptions kind m' ≡ others id (subscriptions kind m))

  at_key-Left :
      (id : ℕ) (k : String) (subs : List (Subscription H))
      (rest : List (String × List (Subscription H)))
      (o : Option (List (String × List (Subscription H))))
      → count_id id subs ≡ 0
      → Left id rest o
      → Left id ((k, subs) ∷ rest) (at_key k subs none rest o)
  unfolding subscriptions
  at_key-Left id k subs rest none h l = omega arith
  at_key-Left id k subs rest (some m') h (one, same) = (
    omega arith,
    λ kind. elim (Bool-cases (str_eq k kind)) [
      | inl e ↦ rw e (sym (others_of_absent id subs h))
      | inr e ↦ rw e (same kind)
    ],
  )

  cut_typed-Left :
      (id : ℕ) (m : List (String × List (Subscription H)))
      → count_typed id m ≤ 1
      → Left id m (cut_typed id m)
  unfolding cut_typed subscriptions
  cut_typed-Left id [] h = refl
  cut_typed-Left id ((k, subs) ∷ rest) h =
      let e = cut_out-others id subs (omega arith) in
      elim (Bool-cases (0 == count_id id subs)) [
        | inl no_hit ↦
            rw (e, no_hit)
              (at_key-Left id k subs rest (cut_typed id rest) (ground arith)
                (cut_typed-Left id rest (omega arith)))
        | inr hit ↦
            rw (e, hit, at_key)
              (
                ground arith,
                λ kind. elim (Bool-cases (str_eq k kind)) [
                  | inl q ↦ rw q
                  | inr q ↦ rw q (sym (subscriptions_of_absent id kind rest (ground arith)))
                ],
              )
      ]

  -- What Unsubscribe promises: every list of subscriptions without those of the id, in order.
  pub record Removed (id : ℕ) (b b' : Bus H) : Type 0 where
    pub typed :
        (kind : String) → subscriptions kind b'.handlers ≡ others id (subscriptions kind b.handlers)
    pub global : b'.global ≡ others id b.global
    pub next_id : b'.next_id ≡ b.next_id

  cut_either-Removed :
      (id : ℕ) (b : Bus H) (o : Option (List (String × List (Subscription H))))
      → count_bus id b ≤ 1
      → Left id b.handlers o
      → Removed id b (cut_either id b o (cut_out id b.global))
  cut_either-Removed id b none h l =
      let absent = λ (kind : String). sym (subscriptions_of_absent id kind b.handlers l) in
      rw (cut_out-others id b.global (omega arith)) (elim (Bool-cases (0 == count_id id b.global)) [
        | inl e ↦ rw e (record {
          typed = absent;
          global = sym (others_of_absent id b.global (ground arith));
          next_id = refl;
        })
        | inr e ↦ rw e (record { typed = absent; global = refl; next_id = refl })
      ])
  cut_either-Removed id b (some m) h (one, same) = record {
    typed = same;
    global = sym (others_of_absent id b.global (omega arith));
    next_id = refl;
  }

  -- On a bus with unique ids, Unsubscribe removes the subscription of the id from the list that holds it, keeps all others in order, and does nothing for an id that no list holds.
  pub unsubscribe-Removed : (id : ℕ) (b : Bus H) → IsValid b → Removed id b (unsubscribe id b)
  unfolding unsubscribe
  unsubscribe-Removed id b h =
      cut_either-Removed id b (cut_typed id b.handlers) (h.once id)
        (cut_typed-Left id b.handlers (omega (arith, h.once id)))

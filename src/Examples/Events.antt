-- ===== src/Examples/Events.antt =====
-- events/bus.go, on a bus of two subscriptions.
use ho.Prelude.{ℕ, ◌≡◌, refl, String, List, [], ◌∷◌, arith}
use ho.Events.Bus.{
  Bus, new_bus, subscribe, subscribe_all, unsubscribe, subscriptions, publish, deliver, Outcome,
}
use ho.Events.Bus.Removal.{IsValid, others, subscribe-IsValid, subscribe_all-IsValid}
use ho.Events.Bus.Delivery.{publish-unsubscribe}

-- A handler is a number that it adds to the world; a world is the list of what ran.
abbrev kind_of : String → String
kind_of e = e

abbrev run : ℕ → String → List ℕ → Outcome (List ℕ)
run h e w = Outcome.returned (h ∷ w)

empty-IsValid : IsValid (new_bus ℕ)
empty-IsValid = record { once = λ id. omega arith; given = λ id h. refl }

abbrev one : Bus ℕ
one = (subscribe "tool.executed" 7 (new_bus ℕ)).0

abbrev two : Bus ℕ
two = (subscribe_all 8 one).0

one-IsValid : IsValid one
one-IsValid = subscribe-IsValid "tool.executed" 7 (new_bus ℕ) (omega arith) empty-IsValid

one-next_id : one.next_id ≡ 1
unfolding subscribe
one-next_id = refl

two-IsValid : IsValid two
two-IsValid = subscribe_all-IsValid 8 one (omega (arith, one-next_id)) one-IsValid

publish-unsubscribe_example :
    publish kind_of run (unsubscribe 1 two) "tool.executed" []
    ≡ deliver kind_of run "tool.executed" (others 1 two.global) (
        deliver kind_of run "tool.executed"
          (others 1 (subscriptions (kind_of "tool.executed") two.handlers))
          [])
publish-unsubscribe_example = publish-unsubscribe kind_of run 1 two "tool.executed" [] two-IsValid

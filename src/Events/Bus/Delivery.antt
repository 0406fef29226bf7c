-- ===== src/Events/Bus/Delivery.antt =====
-- events/bus.go: which handlers Publish runs, in which order.
use ho.Prelude.{
  ℕ, ◌≡◌, refl, ap, inl, inr, String, List, [], ◌∷◌, ◌++◌, str_eq, eq_iff, if◌then◌else◌, arith,
  Bool-cases,
}
use ho.Events.Bus.{
  Subscription, Bus, subscriptions, append_to, subscribe, subscribe_all, unsubscribe, Outcome,
  recovered, deliver, publish,
}
use ho.Events.Bus.Removal.{IsValid, unsubscribe-Removed, others}

module _ {H : Type 0} where
  pub subscriptions-append_to :
      (kind j : String) (s : Subscription H) (m : List (String × List (Subscription H)))
      → subscriptions j (append_to kind s m)
        ≡ (if str_eq kind j then subscriptions j m ++ (s ∷ []) else subscriptions j m)
  unfolding subscriptions append_to
  subscriptions-append_to kind j s [] = refl
  subscriptions-append_to kind j s ((k, subs) ∷ rest) =
      ground
        (arith, subscriptions-append_to kind j s rest, eq_iff k kind, eq_iff k j, eq_iff kind j)

module _ {H E W : Type 0} (kind_of : E → String) (run : H → E → W → Outcome W) where
  deliver-append :
      (e : E) (xs ys : List (Subscription H)) (w : W)
      → deliver kind_of run e (xs ++ ys) w ≡ deliver kind_of run e ys (deliver kind_of run e xs w)
  unfolding deliver
  deliver-append e [] ys w = refl
  deliver-append e (x ∷ xs) ys w = deliver-append e xs ys (recovered (run x.handler e w))

  -- A new subscription runs last among those of its event type, before those to all events, whether or not handlers before it panic; events of other types are delivered as before.
  pub publish-subscribe :
      (kind : String) (handler : H) (b : Bus H) (e : E) (w : W)
      → publish kind_of run (subscribe kind handler b).0 e w ≡ (
          if str_eq kind (kind_of e)
          then deliver kind_of run e b.global (
              recovered
                (run handler e (deliver kind_of run e (subscriptions (kind_of e) b.handlers) w)))
          else publish kind_of run b e w)
  unfolding publish subscribe
  publish-subscribe kind handler b e w =
      let s : Subscription H = record { id = (subscribe kind handler b).1; handler = handler } in
      rw (subscriptions-append_to kind (kind_of e) s b.handlers)
        (elim (Bool-cases (str_eq kind (kind_of e))) [
          | inl q ↦ rw q (
              ap (deliver kind_of run e b.global)
                (deliver-append e (subscriptions (kind_of e) b.handlers) (s ∷ []) w))
          | inr q ↦ rw q
        ])

  -- A new subscription to all events runs last of all.
  pub publish-subscribe_all :
      (handler : H) (b : Bus H) (e : E) (w : W)
      → publish kind_of run (subscribe_all handler b).0 e w
        ≡ recovered (run handler e (publish kind_of run b e w))
  unfolding publish subscribe_all
  publish-subscribe_all handler b e w = deliver-append e b.global _ _

  -- After Unsubscribe, on a bus with unique ids, an event runs the same handlers in the same order less the one of that id.
  pub publish-unsubscribe :
      (id : ℕ) (b : Bus H) (e : E) (w : W)
      → IsValid b
      → publish kind_of run (unsubscribe id b) e w
        ≡ deliver kind_of run e
            (others id b.global)
            (deliver kind_of run e (others id (subscriptions (kind_of e) b.handlers)) w)
  unfolding publish
  publish-unsubscribe id b e w h =
      let r = unsubscribe-Removed id b h in rw (r.typed (kind_of e), r.global)

-- ===== src/Events/Bus.antt =====
-- events/bus.go: subscriptions by event type and to all events, and the delivery of an event. The
-- map of handlers is an association list, in any order, as Go's iteration over a map is. A handler
-- acts on a world W and may panic.
pub mod Removal
pub mod Delivery
use ho.Prelude.{
  ℕ, ◌+◌, ◌%◌, String, Bool, List, [], ◌∷◌, ◌++◌, Option, none, some, ◌==◌, str_eq, if◌then◌else◌,
}

pub record Subscription (H : Type 0) : Type 0 where
  pub id : ℕ
  pub handler : H

pub record Bus (H : Type 0) : Type 0 where
  pub handlers : List (String × List (Subscription H))
  pub global : List (Subscription H)
  pub next_id : ℕ  -- atomic.Uint64

-- NewBus
abbrev pub new_bus : (H : Type 0) → Bus H
new_bus H = record { handlers = []; global = []; next_id = 0 }

abbrev pub add_uint64 : ℕ → ℕ → ℕ
add_uint64 a b = (a + b) % 18446744073709551616

module _ {H : Type 0} where
  -- b.handlers[eventType]
  unfoldable pub subscriptions :
      String → List (String × List (Subscription H)) → List (Subscription H)
  subscriptions kind [] = []
  subscriptions kind ((k, subs) ∷ rest) = if str_eq k kind then subs else subscriptions kind rest

  -- b.handlers[eventType] = append(b.handlers[eventType], s)
  unfoldable pub append_to :
      String
      → Subscription H
      → List (String × List (Subscription H))
      → List (String × List (Subscription H))
  append_to kind s [] = (kind, s ∷ []) ∷ []
  append_to kind s ((k, subs) ∷ rest) =
      if str_eq k kind then (k, subs ++ (s ∷ [])) ∷ rest else (k, subs) ∷ append_to kind s rest

  -- Subscribe
  unfoldable pub subscribe : String → H → Bus H → Bus H × ℕ
  unfolding append_to
  subscribe kind handler b =
      let id = add_uint64 b.next_id 1 in
      (
        record b {
          handlers = append_to kind (record { id = id; handler = handler }) b.handlers;
          next_id = id;
        },
        id,
      )

  -- SubscribeAll
  unfoldable pub subscribe_all : H → Bus H → Bus H × ℕ
  subscribe_all handler b =
      let id = add_uint64 b.next_id 1 in
      (
        record b {
          global = b.global ++ (record { id = id; handler = handler } ∷ []);
          next_id = id;
        },
        id,
      )

  abbrev pub put_back :
      Subscription H → Option (List (Subscription H)) → Option (List (Subscription H))
  put_back s none = none
  put_back s (some rest) = some (s ∷ rest)

  -- The inner loop of Unsubscribe: the list without the first subscription of that id.
  unfoldable pub cut_out : ℕ → List (Subscription H) → Option (List (Subscription H))
  cut_out id [] = none
  cut_out id (s ∷ subs) =
      let later = put_back s (cut_out id subs) in if s.id == id then some subs else later

  abbrev pub at_key :
      String
      → List (Subscription H)
      → Option (List (Subscription H))
      → List (String × List (Subscription H))
      → Option (List (String × List (Subscription H)))
      → Option (List (String × List (Subscription H)))
  at_key k subs (some left) rest later = some ((k, left) ∷ rest)
  at_key k subs none rest none = none
  at_key k subs none rest (some rest') = some ((k, subs) ∷ rest')

  -- The outer loop, over the event types, up to the first hit.
  unfoldable pub cut_typed :
      ℕ → List (String × List (Subscription H)) → Option (List (String × List (Subscription H)))
  unfolding cut_out
  cut_typed id [] = none
  cut_typed id ((k, subs) ∷ rest) = at_key k subs (cut_out id subs) rest (cut_typed id rest)

  abbrev pub cut_global : Bus H → Option (List (Subscription H)) → Bus H
  cut_global b none = b
  cut_global b (some left) = record b { global = left }

  abbrev pub cut_either :
      ℕ
      → Bus H
      → Option (List (String × List (Subscription H)))
      → Option (List (Subscription H))
      → Bus H
  cut_either id b none in_global = cut_global b in_global
  cut_either id b (some left) in_global = record b { handlers = left }

  -- Unsubscribe
  unfoldable pub unsubscribe : ℕ → Bus H → Bus H
  unfolding cut_typed
  unsubscribe id b = cut_either id b (cut_typed id b.handlers) (cut_out id b.global)

pub data Outcome (W : Type 0) : Type 0 where
  returned : W → Outcome W
  panicked : W → Outcome W

-- The deferred recover: a panic ends its own handler, and what that handler did stays.
abbrev pub recovered : {W : Type 0} → Outcome W → W
recovered (returned w) = w
recovered (panicked w) = w

module _ {H E W : Type 0} (kind_of : E → String) (run : H → E → W → Outcome W) where
  -- One loop of Publish.
  unfoldable pub deliver : E → List (Subscription H) → W → W
  deliver e [] w = w
  deliver e (s ∷ subs) w = deliver e subs (recovered (run s.handler e w))

  -- Publish: both lists are read before any handler runs.
  unfoldable pub publish : Bus H → E → W → W
  unfolding deliver subscriptions
  publish b e w =
      let typed = subscriptions (kind_of e) b.handlers in
      let global = b.global in deliver e global (deliver e typed w)

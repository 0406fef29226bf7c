-- ===== src/Brain/Pipeline/Worker/Modes.antt =====
-- brain/pipeline.go: which commands move the worker from one loop to another.
use ho.Prelude.{
  ◌≡◌, refl, Bool, true, false, Option, none, some, List, [], ◌∷◌, if◌then◌else◌, arith, All, sym,
  subst,
}
use ho.Prelude.Bytes.{Bytes, codes, same}
use ho.Brain.Pipeline.{building, paused_state, update_plan, advance_stage}
use ho.Brain.Pipeline.Worker.{
  Command, wake, mode_change, update, scheduled_task, chat, shutdown, unknown, Worker, is_paused,
  on_wake, set_mode, on_update, on_chat, handle_command, healthy, inspected, inspection_failed,
  asked_owner, skipped, monitoring_tick, Mode, monitoring_loop, paused_loop, build_loop, Input,
  cancel, command, tick, turn, turns,
}

-- A wake, an update or a change to the mode building.
abbrev pub starts : Command → Bool
starts (wake payload) = true
starts (update description) = true
starts (mode_change (some mode)) = same mode (codes "building")
starts _ = false

abbrev pub to_monitoring : Command → Bool
to_monitoring (mode_change (some mode)) = same mode (codes "monitoring")
to_monitoring _ = false

-- A paused worker starts to build exactly on a wake, an update or a change to the mode building, and goes over to the monitoring exactly on a change to that mode.
pub paused_starts :
    (c : Command) (w : Worker)
    → w.state ≡ paused_state
    → (turn paused_loop (command c) w).0
      ≡ (if starts c then build_loop else if to_monitoring c then monitoring_loop else paused_loop)
unfolding turn handle_command on_wake on_update on_chat set_mode
paused_starts (wake payload) w h = ground arith
paused_starts (update d) w h = refl
paused_starts (mode_change none) w h = ground arith
paused_starts (mode_change (some mode)) w h = ground arith
paused_starts (scheduled_task a p r t) w h = ground arith
paused_starts (chat m) w h = ground arith
paused_starts shutdown w h = ground arith
paused_starts (unknown c) w h = ground arith

-- The inputs that can end the monitoring loop.
abbrev pub pauses_later : Input → Bool
pauses_later cancel = true
pauses_later (tick asked_owner) = true
pauses_later (command (mode_change (some mode))) = same mode (codes "paused")
pauses_later _ = false

-- What the update left: the worker calls itself building, and stands in the monitoring loop.
abbrev pub Stuck : Mode × Worker → Type 0
Stuck (m, w) = (m ≡ monitoring_loop) × (is_paused w.state ≡ false)

turn-Stuck :
    (i : Input) (w : Worker)
    → pauses_later i ≡ false
    → is_paused w.state ≡ false
    → Stuck (turn monitoring_loop i w)
unfolding turn handle_command on_wake on_update on_chat set_mode monitoring_tick
turn-Stuck cancel w h k = cc
turn-Stuck (tick healthy) w h k = ground arith
turn-Stuck (tick inspected) w h k = ground arith
turn-Stuck (tick inspection_failed) w h k = ground arith
turn-Stuck (tick asked_owner) w h k = cc
turn-Stuck (tick skipped) w h k = ground arith
turn-Stuck (command (wake p)) w h k = ground arith
turn-Stuck (command (mode_change none)) w h k = ground arith
turn-Stuck (command (mode_change (some mode))) w h k = ground arith
turn-Stuck (command (update d)) w h k = (refl, refl)
turn-Stuck (command (scheduled_task a p r t)) w h k = (refl, k)
turn-Stuck (command (chat m)) w h k = ground arith
turn-Stuck (command shutdown) w h k = (refl, k)
turn-Stuck (command (unknown c)) w h k = (refl, k)

turns-Stuck :
    (is : List Input) (m : Mode) (w : Worker)
    → All (λ i. pauses_later i ≡ false) is
    → Stuck (m, w)
    → (turns is m w).0 ≡ monitoring_loop
unfolding turns
turns-Stuck [] m w h k = k.0
turns-Stuck (i ∷ is) m w (h, hs) k =
    turns-Stuck is (turn m i w).0 (turn m i w).1 hs
      (subst (λ m'. Stuck (turn m' i w)) (sym k.0) (turn-Stuck i w h k.1))

-- An update that reaches the worker while it monitors starts no build: it sets the stage and calls the worker building, and the worker stays in the monitoring loop through any later inputs, unless one of them pauses or ends the monitoring.
pub update_while_monitoring :
    (description : Option Bytes) (is : List Input) (w : Worker)
    → All (λ i. pauses_later i ≡ false) is
    → ((turns (command (update description) ∷ is) monitoring_loop w).0 ≡ monitoring_loop)
      × ((turn monitoring_loop (command (update description)) w).1.state ≡ building)
      × ((turn monitoring_loop (command (update description)) w).1.row.stage ≡ update_plan)
unfolding turns turn handle_command on_update advance_stage
update_while_monitoring d is w h =
    (turns-Stuck is monitoring_loop (on_update d w) h (refl, refl), refl, refl)

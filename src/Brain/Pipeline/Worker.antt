-- ===== src/Brain/Pipeline/Worker.antt =====
-- brain/pipeline.go (Run, handleCommand, runMonitoringLoop, runPausedLoop, monitoringInterval) and
-- monitoringTick of brain/stages.go: the worker between builds. What the environment sends is an
-- `Input`; what the worker starts elsewhere is an `Effect`.
pub mod Modes
use ho.Prelude.{
  ℕ, ◌+◌, ◌*◌, Bool, true, false, Option, none, some, List, [], ◌∷◌, ltb, leb, ◌==◌, if◌then◌else◌,
}
use ho.Prelude.Bytes.{Bytes, codes, same}
use ho.Brain.Pipeline.{
  BrainState, idle, building, monitoring_state, paused_state, error_state, Stage, update_plan, Row,
  advance_stage, reset, pause, resume, auto_recover, owner_answers,
}

-- BrainCommand with the part of its payload that the worker reads; a payload field that is missing, or
-- that is no text, is `none`.
pub data Command : Type 0 where
  wake : Option Bytes → Command
  mode_change : Option Bytes → Command
  update : Option Bytes → Command
  scheduled_task : Option Bytes → Option Bytes → ℕ → ℕ → Command
  chat : Option Bytes → Command
  shutdown : Command
  unknown : Bytes → Command

pub data Effect : Type 0 where
  mode_changed : Bytes → Effect
  native_action : Bytes → ℕ → ℕ → Effect
  prompt_task : Bytes → ℕ → ℕ → Effect
  chat_wake : Bytes → Effect

pub record Worker : Type 0 where
  pub state : BrainState
  pub idle_checks : ℕ
  pub wake_context : Option Bytes
  pub row : Row

abbrev pub is_paused : BrainState → Bool
is_paused paused_state = true
is_paused _ = false

abbrev pub is_monitoring : BrainState → Bool
is_monitoring monitoring_state = true
is_monitoring _ = false

abbrev pub is_building : BrainState → Bool
is_building building = true
is_building _ = false

abbrev or_old : Option Bytes → Option Bytes → Option Bytes
or_old none old = old
or_old (some new) old = some new

unfoldable pub on_wake : Option Bytes → Worker → Worker
on_wake payload w =
    let w' = record w { idle_checks = 0; wake_context = or_old payload w.wake_context } in
    if is_paused w.state then record w' { row = resume w.row; state = building } else w'

unfoldable pub set_mode : Bytes → Worker → Worker
set_mode mode w =
    if same mode (codes "building")
    then record w { state = building; row = reset w.row }
    else if same mode (codes "monitoring")
    then record w { state = monitoring_state }
    else if same mode (codes "paused")
    then record w { state = paused_state }
    else w

abbrev text_or_empty : Option Bytes → Bytes
text_or_empty none = []
text_or_empty (some d) = d

unfoldable pub on_update : Option Bytes → Worker → Worker
on_update description w = record w {
  idle_checks = 0;
  state = building;
  row =
      advance_stage update_plan (record (w.row) { update_description = text_or_empty description });
}

unfoldable pub on_task : Option Bytes → Option Bytes → ℕ → ℕ → List Effect
on_task (some (c ∷ action)) prompt run task = native_action (c ∷ action) run task ∷ []
on_task (some []) (some prompt) run task = prompt_task prompt run task ∷ []
on_task (some []) none run task = []
on_task none (some prompt) run task = prompt_task prompt run task ∷ []
on_task none none run task = []

abbrev on_message : Option Bytes → List Effect
on_message none = []
on_message (some []) = []
on_message (some (c ∷ msg)) = chat_wake (c ∷ msg) ∷ []

unfoldable pub on_chat : Option Bytes → Worker → Worker × List Effect
on_chat message w =
    if is_monitoring w.state then (record w { idle_checks = 0 }, on_message message) else (w, [])

-- handleCommand
unfoldable pub handle_command : Command → Worker → Worker × List Effect
handle_command (wake payload) w = (on_wake payload w, [])
handle_command (mode_change none) w = (w, [])
handle_command (mode_change (some mode)) w = (set_mode mode w, mode_changed mode ∷ [])
handle_command (update description) w = (on_update description w, [])
handle_command (scheduled_task action prompt run task) w = (w, on_task action prompt run task)
handle_command (chat message) w = on_chat message w
handle_command shutdown w = (w, [])
handle_command (unknown kind) w = (w, [])

-- How a tick of the monitoring ends: with no recent error, or after an inspection.
pub data Tick : Type 0 where
  healthy inspected inspection_failed asked_owner skipped : Tick

-- monitoringTick
unfoldable pub monitoring_tick : Tick → Worker → Worker
monitoring_tick healthy w = record w { idle_checks = w.idle_checks + 1 }
monitoring_tick inspected w = record w { idle_checks = 0 }
monitoring_tick inspection_failed w = record w { idle_checks = 0 }
monitoring_tick asked_owner w = record w {
  idle_checks = 0;
  state = paused_state;
  row = pause owner_answers w.row;
}
monitoring_tick skipped w = w

abbrev pub idle_threshold : ℕ
idle_threshold = 3

-- monitoringInterval: base and max are the configured ones, 0 for none; in seconds
unfoldable pub monitoring_interval : ℕ → ℕ → Worker → ℕ
monitoring_interval base max w =
    if leb idle_threshold w.idle_checks
    then (if ltb 0 max then max else 15 * 60)
    else (if ltb 0 base then base else 5 * 60)

-- Where the worker's goroutine stands: in one of the loops, or ended. A build is a loop of its own.
pub data Mode : Type 0 where
  monitoring_loop paused_loop build_loop ended : Mode

pub data Input : Type 0 where
  cancel : Input
  command : Command → Input
  tick : Tick → Input

abbrev pub after_tick : Worker → Mode × Worker
after_tick w = (if is_paused w.state then paused_loop else monitoring_loop, w)

abbrev pub after_paused_command : Worker → Mode × Worker
after_paused_command w = (
  if is_building w.state
      then build_loop
      else if is_monitoring w.state
      then monitoring_loop
      else paused_loop,
  w,
)

-- One turn of the loop that the worker stands in. The paused loop has no ticks, and a build takes no
-- input but the cancellation.
unfoldable pub turn : Mode → Input → Worker → Mode × Worker
turn ended i w = (ended, w)
turn _ cancel w = (ended, w)
turn monitoring_loop (command c) w = (monitoring_loop, (handle_command c w).0)
turn monitoring_loop (tick t) w = after_tick (monitoring_tick t w)
turn paused_loop (command c) w = after_paused_command (handle_command c w).0
turn paused_loop (tick t) w = (paused_loop, w)
turn build_loop (command c) w = (build_loop, w)
turn build_loop (tick t) w = (build_loop, w)

unfoldable pub turns : List Input → Mode → Worker → Mode × Worker
turns [] m w = (m, w)
turns (i ∷ is) m w = let (m', w') = turn m i w in turns is m' w'

-- The start of Run, by the mode of the site.
unfoldable pub run : Bytes → ℕ → Worker → Mode × Worker
run mode pending w =
    if same mode (codes "building")
    then (let (row, ok) = auto_recover pending w.row in
        if ok
        then (build_loop, record w { state = building; row = row })
        else (paused_loop, record w { state = paused_state; row = row }))
    else if same mode (codes "monitoring")
    then (monitoring_loop, record w { state = monitoring_state })
    else if same mode (codes "paused")
    then (paused_loop, record w { state = paused_state })
    else (paused_loop, record w { state = idle })

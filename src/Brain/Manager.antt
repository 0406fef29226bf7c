-- ===== src/Brain/Manager.antt =====
-- The manager of the sites' workers: brain/manager.go. A goroutine runs until its context is cancelled;
-- whether a worker is created and a site's database opens, and a worker's own state, are arguments.
pub mod Threads
use ho.Prelude.{ℕ, zero, suc, ◌+◌, ◌-◌, ◌*◌, ◌/◌, ◌%◌, ◌≤◌, ◌<◌, ◌≡◌, refl, sym, ap, ◌∙◌, subst}
use ho.Prelude.{◌≢◌, ◌↔◌, ◌⊎◌, inl, inr, Bool, true, false, not, ◌&&◌, ◌||◌, Option, none, some}
use ho.Prelude.{
  List, [], ◌∷◌, ◌++◌, map, arith, if◌then◌else◌, ltb, leb, ◌==◌, Bool-cases, Option-cases,
}
use ho.Prelude.{length, All, any, all, select, take, drop, length-append, any-append, All-append}
use ho.Prelude.{All-map, take-drop, length-drop, ==_iff, ==_refl, String, min, max}
use ho.Prelude.Dict.{nat_eq, find, put, remove, has_key}
use ho.Brain.Pipeline.{BrainState, idle}

-- The contexts of a worker and of its job worker, which start and end together, and whether there is a
-- job worker.
pub record Handle : Type 0 where
  pub serial : ℕ
  pub has_jobs : Bool

-- A goroutine, by the serial of its handle; `true` is the job worker's.
abbrev pub Thread : Type 0
Thread = ℕ × Bool

pub record Manager : Type 0 where
  pub workers : List (ℕ × Handle)
  pub running : List Thread  -- those whose context is not cancelled
  pub next : ℕ

-- NewBrainManager
abbrev pub new_manager : Manager
new_manager = record { workers = []; running = []; next = 0 }

abbrev pub threads_of : Handle → List Thread
threads_of h = (h.serial, false) ∷ (if h.has_jobs then (h.serial, true) ∷ [] else [])

abbrev pub add_worker : ℕ → Handle → Manager → Manager
add_worker site h m = record {
  workers = put site h m.workers;
  running = m.running ++ threads_of h;
  next = suc m.next;
}

-- Whether there is no error, and the manager.
unfoldable pub start_site : Bool → Bool → ℕ → Manager → Bool × Manager
start_site creates opens site m =
    if has_key site m.workers
    then (true, m)
    else if creates
    then (true, add_worker site (record { serial = m.next; has_jobs = opens }) m)
    else (false, m)

abbrev pub cancel : Handle → List Thread → List Thread
cancel h ts = select (λ t. not (t.0 == h.serial)) ts

abbrev pub stop_found : ℕ → Option Handle → Manager → Bool × Manager
stop_found site none m = (false, m)
stop_found site (some h) m =
    (true, record m { workers = remove site m.workers; running = cancel h m.running })

unfoldable pub stop_site : ℕ → Manager → Bool × Manager
stop_site site m = stop_found site (find site m.workers) m

abbrev pub cancel_all : List (ℕ × Handle) → List Thread → List Thread
cancel_all [] ts = ts
cancel_all ((site, h) ∷ ws) ts = cancel_all ws (cancel h ts)

unfoldable pub stop_all : Manager → Manager
stop_all m = record m { workers = []; running = cancel_all m.workers m.running }

-- Status, by the states of the workers
abbrev pub status : (Handle → BrainState) → ℕ → Manager → BrainState
status state site m = elim (find site m.workers) [ none ↦ idle | some h ↦ state h ]

-- SendCommand: what the worker's Send returns, an error where there is none
abbrev pub send_command : (Handle → Bool) → ℕ → Manager → Bool
send_command send site m = elim (find site m.workers) [ none ↦ false | some h ↦ send h ]

abbrev pub is_running : ℕ → Manager → Bool
is_running site m = has_key site m.workers

abbrev pub running_count : Manager → ℕ
running_count m = length m.workers

abbrev pub sites : List (ℕ × Handle) → List ℕ
sites [] = []
sites ((site, h) ∷ ws) = site ∷ sites ws

abbrev pub running_sites : Manager → List ℕ
running_sites m = sites m.workers

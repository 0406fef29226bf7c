-- ===== src/Brain/Manager/Threads.antt =====
-- The goroutines that run are those of the workers that are registered (brain/manager.go).
use ho.Brain.Manager.{
  Handle, Thread, Manager, threads_of, add_worker, start_site, cancel, stop_site, cancel_all,
  stop_all,
}
use ho.Prelude.{ℕ, suc, ◌<◌, ◌≡◌, refl, sym, ap, ◌∙◌, subst}
use ho.Prelude.{inl, inr, Bool, false, not, some}
use ho.Prelude.{List, [], ◌∷◌, ◌++◌, arith, ◌==◌, Bool-cases, Option-cases}
use ho.Prelude.{All, select, All-append}
use ho.Prelude.{All-map, ==_iff, ==_refl}
use mathlib.Core.List.{append_assoc, append-nil}
use mathlib.Core.Option.{some-injective}
use ho.Prelude.Dict.{
  nat_eq, find, remove, has_key, IsDict, put-IsDict, remove-IsDict, put-All, remove-All, find-All,
  put_absent, remove_absent,
}

-- The goroutines of all workers
abbrev pub threads : List (ℕ × Handle) → List Thread
threads [] = []
threads ((site, h) ∷ ws) = threads_of h ++ threads ws

-- No handle of the list has the serial.
abbrev IsNew : ℕ → List (ℕ × Handle) → Type 0
IsNew n ws = All (λ entry. (entry.1.serial == n) ≡ false) ws

abbrev AreDistinct : List (ℕ × Handle) → Type 0
AreDistinct [] = Unit
AreDistinct ((site, h) ∷ ws) = IsNew h.serial ws × AreDistinct ws

-- One worker a site, serials used once, and the goroutines of the workers running, and no other.
abbrev pub IsValid : Manager → Type 0
IsValid m =
    IsDict m.workers
    × AreDistinct m.workers
    × All (λ entry. entry.1.serial < m.next) m.workers
    × (m.running ≡ threads m.workers)

select_append :
    (p : Thread → Bool) (xs ys : List Thread) → select p (xs ++ ys) ≡ select p xs ++ select p ys
select_append p [] ys = refl
select_append p (x ∷ xs) ys = ground (arith, select_append p xs ys)

cancel_own : (h : Handle) → cancel h (threads_of h) ≡ []
cancel_own h = elim (Bool-cases h.has_jobs) [
  | inl e ↦ rw (e, ==_refl h.serial) refl
  | inr e ↦ rw (e, ==_refl h.serial) refl
]

cancel_other :
    (g h : Handle) → (g.serial == h.serial) ≡ false → cancel h (threads_of g) ≡ threads_of g
cancel_other g h d = elim (Bool-cases g.has_jobs) [
  | inl e ↦ rw (e, d) refl
  | inr e ↦ rw (e, d) refl
]

cancel_new :
    (h : Handle) (ws : List (ℕ × Handle)) → IsNew h.serial ws → cancel h (threads ws) ≡ threads ws
cancel_new h [] n = refl
cancel_new h ((site, g) ∷ ws) n =
    select_append (λ t. not (t.0 == h.serial)) (threads_of g) (threads ws)
    ∙ ap (λ ts. ts ++ cancel h (threads ws)) (cancel_other g h n.0)
    ∙ ap (λ ts. threads_of g ++ ts) (cancel_new h ws n.1)

cancel_append :
    (h g : Handle) (ts : List Thread)
    → cancel h (threads_of g ++ ts) ≡ cancel h (threads_of g) ++ cancel h ts
cancel_append h g ts = select_append (λ t. not (t.0 == h.serial)) (threads_of g) ts

-- A worker that is found has a serial unlike that of another.
found_apart :
    (n site : ℕ) (h : Handle) (ws : List (ℕ × Handle))
    → IsNew n ws
    → find site ws ≡ some h
    → (n == h.serial) ≡ false
found_apart n site h ws new f =
    let apart = find-All (λ entry. (entry.1.serial == n) ≡ false) site h ws f new in
    ground (arith, apart)

-- Cancelling a worker's contexts leaves the goroutines of the others.
cancel-threads :
    (site : ℕ) (h : Handle) (ws : List (ℕ × Handle))
    → IsDict ws
    → AreDistinct ws
    → find site ws ≡ some h
    → cancel h (threads ws) ≡ threads (remove site ws)
cancel-threads site h [] d n f = cc
cancel-threads site h ((k, g) ∷ ws) d n f = elim (Bool-cases (k == site)) [
  | inl e ↦
      let found : some g ≡ some h = rw e at f in
      let same_handle : g ≡ h = some-injective _ _ found in
      let absent : has_key site ws ≡ false =
        subst (λ j. has_key j ws ≡ false) ((==_iff k site).0 e) d.0 in
      let gone : remove site ((k, g) ∷ ws) ≡ ws = rw e (remove_absent site ws absent) in
      let left : cancel g (threads ((k, g) ∷ ws)) ≡ threads ws =
        cancel_append g g (threads ws)
        ∙ ap (λ ts. ts ++ cancel g (threads ws)) (cancel_own g)
        ∙ cancel_new g ws n.0 in
      subst (λ x. cancel x (threads ((k, g) ∷ ws)) ≡ threads ws) same_handle left
      ∙ ap threads (sym gone)
  | inr e ↦
      let found : find site ws ≡ some h = rw e at f in
      let apart = found_apart g.serial site h ws n.0 found in
      let kept : remove site ((k, g) ∷ ws) ≡ (k, g) ∷ remove site ws = rw e refl in
      cancel_append h g (threads ws)
      ∙ ap (λ ts. ts ++ cancel h (threads ws)) (cancel_other g h apart)
      ∙ ap (λ ts. threads_of g ++ ts) (cancel-threads site h ws d.1 n.1 found)
      ∙ ap threads (sym kept)
]

threads_append : (ws vs : List (ℕ × Handle)) → threads (ws ++ vs) ≡ threads ws ++ threads vs
threads_append [] vs = refl
threads_append ((k, g) ∷ ws) vs =
    ap (λ ts. threads_of g ++ ts) (threads_append ws vs)
    ∙ sym (append_assoc (threads_of g) (threads ws) (threads vs))

append-AreDistinct :
    (site : ℕ) (h : Handle) (ws : List (ℕ × Handle))
    → AreDistinct ws
    → All (λ entry. entry.1.serial < h.serial) ws
    → AreDistinct (ws ++ ((site, h) ∷ []))
append-AreDistinct site h [] n l = (tt, tt)
append-AreDistinct site h ((k, g) ∷ ws) n l =
    let apart : (h.serial == g.serial) ≡ false = ground (arith, l) in
    (
      All-append (λ entry. (entry.1.serial == g.serial) ≡ false) ws ((site, h) ∷ []) n.0
          (apart, tt),
      append-AreDistinct site h ws n.1 l.1,
    )

remove-AreDistinct :
    (site : ℕ) (ws : List (ℕ × Handle)) → AreDistinct ws → AreDistinct (remove site ws)
remove-AreDistinct site [] n = tt
remove-AreDistinct site ((k, g) ∷ ws) n = elim (Bool-cases (k == site)) [
  | inl e ↦ rw e (remove-AreDistinct site ws n.1)
  | inr e ↦ rw e (
      (
        remove-All (λ entry. (entry.1.serial == g.serial) ≡ false) site ws n.0,
        remove-AreDistinct site ws n.1,
      ))
]

threads_one : (site : ℕ) (h : Handle) → threads ((site, h) ∷ []) ≡ threads_of h
threads_one site h = append-nil (threads_of h)

add_worker-IsValid :
    (site : ℕ) (opens : Bool) (m : Manager)
    → has_key site m.workers ≡ false
    → IsValid m
    → IsValid (add_worker site (record { serial = m.next; has_jobs = opens }) m)
add_worker-IsValid site opens m absent v =
    let h : Handle = record { serial = m.next; has_jobs = opens } in
    let at_end = put_absent site h m.workers absent in
    let later : All (λ entry. entry.1.serial < suc m.next) m.workers =
      All-map (λ entry l. omega arith) m.workers v.2 in
    (
      put-IsDict site h m.workers v.0,
      subst AreDistinct (sym at_end) (append-AreDistinct site h m.workers v.1 v.2),
      put-All (λ entry. entry.1.serial < suc m.next) site h m.workers (λ k e. omega arith) later,
      ap (λ ts. ts ++ threads_of h) v.3
          ∙ ap (λ ts. threads m.workers ++ ts) (sym (threads_one site h))
          ∙ sym (threads_append m.workers ((site, h) ∷ []))
          ∙ ap threads (sym at_end),
    )

start_site-IsValid :
    (creates opens : Bool) (site : ℕ) (m : Manager)
    → IsValid m
    → IsValid (start_site creates opens site m).1
unfolding start_site
start_site-IsValid creates opens site m v = elim (Bool-cases (has_key site m.workers)) [
  | inl e ↦ rw e v
  | inr e ↦ elim (Bool-cases creates) [
    | inl f ↦ rw (e, f) (add_worker-IsValid site opens m e v)
    | inr f ↦ rw (e, f) v
  ]
]

stop_site-IsValid : (site : ℕ) (m : Manager) → IsValid m → IsValid (stop_site site m).1
unfolding stop_site
stop_site-IsValid site m v = elim (Option-cases (find site m.workers)) [
  | inl e ↦ rw e v
  | inr e ↦ rw e.1 (
      (
        remove-IsDict site m.workers v.0,
        remove-AreDistinct site m.workers v.1,
        remove-All (λ entry. entry.1.serial < m.next) site m.workers v.2,
        ap (cancel e.0) v.3 ∙ cancel-threads site e.0 m.workers v.0 v.1 e.1,
      ))
]

cancel_all-threads : (ws : List (ℕ × Handle)) → AreDistinct ws → cancel_all ws (threads ws) ≡ []
cancel_all-threads [] n = refl
cancel_all-threads ((k, g) ∷ ws) n =
    let own : cancel g (threads ((k, g) ∷ ws)) ≡ threads ws =
      cancel_append g g (threads ws)
      ∙ ap (λ ts. ts ++ cancel g (threads ws)) (cancel_own g)
      ∙ cancel_new g ws n.0 in
    ap (cancel_all ws) own ∙ cancel_all-threads ws n.1

stop_all-IsValid : (m : Manager) → IsValid m → IsValid (stop_all m)
unfolding stop_all
stop_all-IsValid m v =
    (tt, tt, tt, ap (cancel_all m.workers) v.3 ∙ cancel_all-threads m.workers v.1)

pub data Op : Type 0 where
  do_start : Bool → Bool → ℕ → Op
  do_stop : ℕ → Op
  do_stop_all : Op

unfoldable pub apply : Op → Manager → Manager
apply (do_start creates opens site) m = (start_site creates opens site m).1
apply (do_stop site) m = (stop_site site m).1
apply do_stop_all m = stop_all m

unfoldable pub run_ops : List Op → Manager → Manager
run_ops [] m = m
run_ops (op ∷ ops) m = run_ops ops (apply op m)

apply-IsValid : (op : Op) (m : Manager) → IsValid m → IsValid (apply op m)
unfolding apply
apply-IsValid (do_start creates opens site) m v = start_site-IsValid creates opens site m v
apply-IsValid (do_stop site) m v = stop_site-IsValid site m v
apply-IsValid do_stop_all m v = stop_all-IsValid m v

-- From a valid manager, however sites are started and stopped, there is one worker a site at most, and
-- the goroutines whose contexts are not cancelled are those of the workers that are registered: none is
-- left behind, and none is lost.
pub run_ops-IsValid : (ops : List Op) (m : Manager) → IsValid m → IsValid (run_ops ops m)
unfolding run_ops
run_ops-IsValid [] m v = v
run_ops-IsValid (op ∷ ops) m v = run_ops-IsValid ops (apply op m) (apply-IsValid op m v)

-- ===== src/Brain/Tasks/Safe.antt =====
-- The statements that a native action sends to the database (brain/scheduled.go).
use ho.Brain.Tasks.{
  unknown_type, Action, Effect, TaskError, write, read, announce, is_nil, delete_stale, count_rows,
  truncate, run_sql, announce_kind, trigger_event, effect_of, is_safe_name, column_of, starts,
}
use ho.Prelude.{◌≡◌, ◌↔◌, refl, subst, ap, ◌∙◌}
use ho.Prelude.{Bool, true, false, not, ◌||◌, Option, none, some}
use ho.Prelude.{[], ◌∷◌, ◌++◌, if◌then◌else◌}
use ho.Prelude.Bytes.{Bytes, codes, same, same_eq, trim_space}
use ho.Prelude.Result.{Result, err, ok}

-- What an action of each type does: the statement with its parameters, or the event. The names in the
-- text of a statement consist of letters, digits and underscores, and there is one at least; of the
-- action's own query only the beginning is tested, for one of four words.
pub data Performs (a : Action) : Effect → Type 0 where
  deletes_old :
      a.kind ≡ codes "delete_stale"
      → is_safe_name a.table ≡ true
      → is_safe_name (column_of a) ≡ true
      → is_nil a.age ≡ false
      → Performs a (
          write
            (codes "DELETE FROM "
              ++ (a.table ++ (codes " WHERE " ++ (column_of a ++ codes " < datetime('now', ?)"))))
            ((45 ∷ a.age) ∷ []))
  counts :
      a.kind ≡ codes "count_rows"
      → is_safe_name a.table ≡ true
      → Performs a (read (codes "SELECT COUNT(*) FROM " ++ a.table) [])
  deletes_all :
      a.kind ≡ codes "truncate"
      → is_safe_name a.table ≡ true
      → Performs a (write (codes "DELETE FROM " ++ a.table) [])
  selects :
      a.kind ≡ codes "sql"
      → is_nil a.query ≡ false
      → starts (trim_space a.query) (codes "SELECT") ≡ true
      → Performs a (read (trim_space a.query) a.params)
  changes :
      a.kind ≡ codes "sql"
      → is_nil a.query ≡ false
      → starts (trim_space a.query) (codes "SELECT") ≡ false
      → (starts (trim_space a.query) (codes "DELETE")
          || (starts (trim_space a.query) (codes "UPDATE")
              || starts (trim_space a.query) (codes "INSERT")))
        ≡ true
      → Performs a (write (trim_space a.query) a.params)
  announces :
      (kind : Bytes)
      → a.kind ≡ codes "trigger_event"
      → a.event_type ≡ some kind
      → is_nil kind ≡ false
      → Performs a (announce kind)

abbrev PerformsOr : Action → Result TaskError Effect → Type 0
PerformsOr a (err e) = Unit
PerformsOr a (ok e) = Performs a e

-- By the cases of a test
if-PerformsOr :
    (a : Action) (b : Bool) (x y : Result TaskError Effect)
    → (b ≡ true → PerformsOr a x)
    → (b ≡ false → PerformsOr a y)
    → PerformsOr a (if b then x else y)
if-PerformsOr a true x y f g = f refl
if-PerformsOr a false x y f g = g refl

two_safe : (a b : Bool) → (not a || not b) ≡ false → (a ≡ true) × (b ≡ true)
two_safe true true h = (refl, refl)
two_safe true false h = cc
two_safe false b h = cc

negated : (a : Bool) → not a ≡ false → a ≡ true
negated true h = refl
negated false h = cc

or_false : (x y : Bool) → (x || y) ≡ false → (x ≡ false) × (y ≡ false)
or_false true y h = cc
or_false false y h = (refl, h)

delete_stale-Performs : (a : Action) → a.kind ≡ codes "delete_stale" → PerformsOr a (delete_stale a)
delete_stale-Performs a k =
    if-PerformsOr a (is_nil a.table || is_nil a.age) _ _ (λ e. tt)
      (λ e.
        if-PerformsOr a (not (is_safe_name a.table) || not (is_safe_name (column_of a))) _ _
          (λ f. tt)
          (λ f.
            let both = two_safe (is_safe_name a.table) (is_safe_name (column_of a)) f in
            deletes_old k both.0 both.1 (or_false (is_nil a.table) (is_nil a.age) e).1))

count_rows-Performs : (a : Action) → a.kind ≡ codes "count_rows" → PerformsOr a (count_rows a)
count_rows-Performs a k =
    if-PerformsOr a (is_nil a.table) _ _ (λ e. tt)
      (λ e.
        if-PerformsOr a (not (is_safe_name a.table)) _ _ (λ f. tt)
          (λ f. counts k (negated (is_safe_name a.table) f)))

truncate-Performs : (a : Action) → a.kind ≡ codes "truncate" → PerformsOr a (truncate a)
truncate-Performs a k =
    if-PerformsOr a (is_nil a.table) _ _ (λ e. tt)
      (λ e.
        if-PerformsOr a (not (is_safe_name a.table)) _ _ (λ f. tt)
          (λ f. deletes_all k (negated (is_safe_name a.table) f)))

run_sql-Performs : (a : Action) → a.kind ≡ codes "sql" → PerformsOr a (run_sql a)
run_sql-Performs a k =
    let q = trim_space a.query in
    let changed =
      starts q (codes "DELETE") || (starts q (codes "UPDATE") || starts q (codes "INSERT")) in
    if-PerformsOr a (is_nil a.query) _ _ (λ e. tt)
      (λ e.
        if-PerformsOr a (starts q (codes "SELECT")) _ _ (λ f. selects k e f)
          (λ f. if-PerformsOr a changed _ _ (λ g. changes k e f g) (λ g. tt)))

announce_kind-Performs :
    (a : Action) (o : Option Bytes)
    → a.kind ≡ codes "trigger_event"
    → a.event_type ≡ o
    → PerformsOr a (announce_kind o)
announce_kind-Performs a none k o = tt
announce_kind-Performs a (some kind) k o =
    if-PerformsOr a (is_nil kind) _ _ (λ e. tt) (λ e. announces kind k o e)

effect_of-PerformsOr : (a : Action) → PerformsOr a (effect_of a)
unfolding effect_of
effect_of-PerformsOr a =
    if-PerformsOr a (same a.kind (codes "delete_stale")) _ _
      (λ e. delete_stale-Performs a (same_eq a.kind (codes "delete_stale") e))
      (λ e.
        if-PerformsOr a (same a.kind (codes "count_rows")) _ _
          (λ e. count_rows-Performs a (same_eq a.kind (codes "count_rows") e))
          (λ e.
            if-PerformsOr a (same a.kind (codes "truncate")) _ _
              (λ e. truncate-Performs a (same_eq a.kind (codes "truncate") e))
              (λ e.
                if-PerformsOr a (same a.kind (codes "sql")) _ _
                  (λ e. run_sql-Performs a (same_eq a.kind (codes "sql") e))
                  (λ e.
                    if-PerformsOr a (same a.kind (codes "trigger_event")) _ _
                      (λ e.
                        announce_kind-Performs a a.event_type
                          (same_eq a.kind (codes "trigger_event") e) refl)
                      (λ e. tt)))))

-- The switch by its type.
abbrev by_kind : Bytes → Action → Result TaskError Effect
by_kind kind a =
    if same kind (codes "delete_stale")
    then delete_stale a
    else if same kind (codes "count_rows")
    then count_rows a
    else if same kind (codes "truncate")
    then truncate a
    else if same kind (codes "sql")
    then run_sql a
    else if same kind (codes "trigger_event")
    then trigger_event a
    else err unknown_type

effect_of-by_kind : (a : Action) (kind : Bytes) → a.kind ≡ kind → effect_of a ≡ by_kind kind a
unfolding effect_of
effect_of-by_kind a kind k = ap (λ x. by_kind x a) k

named : (name : Bytes) → is_safe_name name ≡ true → is_nil name ≡ false
named [] h = cc
named (c ∷ name) h = refl

performed : (a : Action) (e : Effect) → Performs a e → effect_of a ≡ ok e
performed a _ (deletes_old k t c g) =
    effect_of-by_kind a (codes "delete_stale") k ∙ rw (named a.table t, g, t, c) refl
performed a _ (counts k t) =
    effect_of-by_kind a (codes "count_rows") k ∙ rw (named a.table t, t) refl
performed a _ (deletes_all k t) =
    effect_of-by_kind a (codes "truncate") k ∙ rw (named a.table t, t) refl
performed a _ (selects k n f) = effect_of-by_kind a (codes "sql") k ∙ rw (n, f) refl
performed a _ (changes k n f g) = effect_of-by_kind a (codes "sql") k ∙ rw (n, f, g) refl
performed a _ (announces kind k o n) =
    effect_of-by_kind a (codes "trigger_event") k ∙ ap announce_kind o ∙ rw n refl

-- An action gets to the database, or to the bus, with exactly the statement and parameters, or the event,
-- of its type: it does so where its fields are given and the names of its table and column are plain
-- words, or, for its own query, that begins with one of four words; else it fails.
pub effect_of-Performs : (a : Action) (e : Effect) → (effect_of a ≡ ok e) ↔ Performs a e
effect_of-Performs a e = (λ h. subst (PerformsOr a) h (effect_of-PerformsOr a), performed a e)

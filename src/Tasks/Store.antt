-- ===== src/Tasks/Store.antt =====
-- The tasks of a runner, looked up and changed by their ids (taskrunner.cc).
use txmpp.Common.{
  ℕ, Bool, true, false, not, ◌≡◌, refl, inl, inr, List, [], ◌∷◌, some, ◌==◌, arith, Bool-cases,
  AllTrue, nil, cons,
}
use txmpp.Tasks.{Task, find_task, set_task}
use txmpp.Tasks.Soonest.{Among, here, there}

-- No two tasks have an id in common.
abbrev pub other_id : ℕ → Task → Bool
other_id id t = not (t.unique_id == id)

abbrev pub UniqueIds : List Task → Type 0
UniqueIds [] = Unit
UniqueIds (t ∷ ts) = AllTrue (other_id t.unique_id) ts × UniqueIds ts

pub Among-AllTrue :
    {p : Task → Bool} {t : Task} {ts : List Task} → Among t ts → AllTrue p ts → p t ≡ true
Among-AllTrue here (cons h k) = h
Among-AllTrue (there at) (cons h k) = Among-AllTrue at k

pub find_task-Among :
    (t : Task) {ts : List Task} → Among t ts → UniqueIds ts → find_task t.unique_id ts ≡ some t
unfolding find_task
find_task-Among t here unique = ground arith
find_task-Among t (there {u} at) (others, rest) =
    let h = Among-AllTrue at others in ground (arith, find_task-Among t at rest)

pub AllTrue-set_task :
    {p : Task → Bool} (t : Task) {ts : List Task}
    → p t ≡ true
    → AllTrue p ts
    → AllTrue p (set_task t ts)
unfolding set_task
AllTrue-set_task t h nil = nil
AllTrue-set_task t h (cons {x} k rest) = elim (Bool-cases (x.unique_id == t.unique_id)) [
  | inl same ↦ rw same (cons h (AllTrue-set_task t h rest))
  | inr other ↦ rw other (cons k (AllTrue-set_task t h rest))
]

pub Among-set_task :
    (t n : Task) {ts : List Task}
    → (n.unique_id == t.unique_id) ≡ false
    → Among n ts
    → Among n (set_task t ts)
unfolding set_task
Among-set_task t n other here = rw other here
Among-set_task t n other (there at) = there (Among-set_task t n other at)

pub Among-set_task_new :
    (t : Task) (ts : List Task) {u : Task}
    → find_task t.unique_id ts ≡ some u
    → Among t (set_task t ts)
unfolding set_task find_task
Among-set_task_new t [] e = absurd (ground arith)
Among-set_task_new t (x ∷ ts) {u} e = elim (Bool-cases (x.unique_id == t.unique_id)) [
  | inl same ↦ rw same here
  | inr other ↦ there (Among-set_task_new t ts {u = u} (ground arith))
]

pub find_task-set_task :
    (t : Task) (ts : List Task) (id : ℕ)
    → (id == t.unique_id) ≡ false
    → find_task id (set_task t ts) ≡ find_task id ts
unfolding find_task set_task
find_task-set_task t [] id other = refl
find_task-set_task t (x ∷ ts) id other = ground (arith, find_task-set_task t ts id other)

pub find_task-set_task_new :
    (t : Task) (ts : List Task) {u : Task}
    → find_task t.unique_id ts ≡ some u
    → find_task t.unique_id (set_task t ts) ≡ some t
unfolding find_task set_task
find_task-set_task_new t [] e = absurd (ground arith)
find_task-set_task_new t (x ∷ ts) {u} e = elim (Bool-cases (x.unique_id == t.unique_id)) [
  | inl same ↦ rw same (ground arith)
  | inr other ↦ rw other (ground (arith, find_task-set_task_new t ts {u = u}))
]

-- ===== src/Tasks/Soonest.antt =====
-- The walk through all tasks for the one that times out next (taskrunner.cc: RecalcNextTimeout).
use txmpp.Common.{
  ℕ, ◌≤◌, Bool, true, false, not, ◌&&◌, ◌||◌, ◌≡◌, ◌⊎◌, inl, inr, List, [], ◌∷◌, Option, none, some,
  ltb, leb, ◌==◌, arith, Bool-cases, AllTrue, nil, cons, AllTrue-mono,
}
use txmpp.Tasks.{Task, TaskRunner, is_candidate, recalc_over, recalc_next_timeout}

-- A task of the list.
pub data Among (t : Task) : List Task → Type 0 where
  here : {ts : List Task} → Among t (t ∷ ts)
  there : {u : Task} {ts : List Task} → Among t ts → Among t (u ∷ ts)

-- Nothing that may time out does so before the time given.
abbrev pub not_sooner : Option ℕ → ℕ → Task → Bool
not_sooner exclude time u = not (is_candidate exclude u) || leb time u.timeout_time

abbrev later : Option ℕ → ℕ → Task → Bool
later exclude time u = not (is_candidate exclude u) || (not (time == 0) && ltb time u.timeout_time)

-- The task that times out next, of those that are not left out; none if there is none.
pub data IsNext (exclude : Option ℕ) (ts : List Task) : Option ℕ → Type 0 where
  no_timeout : AllTrue (λ u. not (is_candidate exclude u)) ts → IsNext exclude ts none
  next_timeout :
      (t : Task)
      → Among t ts
      → is_candidate exclude t ≡ true
      → AllTrue (not_sooner exclude t.timeout_time) ts
      → IsNext exclude ts (some t.unique_id)

-- What the loop makes of the best so far: it keeps it, or finds a task that is no later.
data Walks (exclude : Option ℕ) (ts : List Task) (time : ℕ) (next : Option ℕ)
    : Option ℕ → Type 0 where
  keeps : AllTrue (later exclude time) ts → Walks exclude ts time next next
  finds :
      (t : Task)
      → Among t ts
      → is_candidate exclude t ≡ true
      → (time ≡ 0) ⊎ (t.timeout_time ≤ time)
      → AllTrue (not_sooner exclude t.timeout_time) ts
      → Walks exclude ts time next (some t.unique_id)

recalc_over-Walks :
    (exclude : Option ℕ) (ts : List Task) (time : ℕ) (next : Option ℕ)
    → Walks exclude ts time next (recalc_over exclude ts time next)
unfolding recalc_over
recalc_over-Walks exclude [] time next = keeps nil
recalc_over-Walks exclude (t ∷ ts) time next =
    elim (Bool-cases (is_candidate exclude t && (time == 0 || leb t.timeout_time time))) [
      | inl taken ↦
          rw taken (take taken (recalc_over-Walks exclude ts t.timeout_time (some t.unique_id)))
      | inr passed ↦ rw passed (pass passed (recalc_over-Walks exclude ts time next))
    ]
  where
    take :
        {o : Option ℕ}
        → (is_candidate exclude t && (time == 0 || leb t.timeout_time time)) ≡ true
        → Walks exclude ts t.timeout_time (some t.unique_id) o
        → Walks exclude (t ∷ ts) time next o
    take taken (keeps rest) =
        finds t here (ground arith) (ground arith)
          (cons (ground arith) (AllTrue-mono (λ u h. ground arith) rest))
    take taken (finds u at fit soon rest) =
        finds u (there at) fit (ground arith) (cons (ground arith) rest)

    pass :
        {o : Option ℕ}
        → (is_candidate exclude t && (time == 0 || leb t.timeout_time time)) ≡ false
        → Walks exclude ts time next o
        → Walks exclude (t ∷ ts) time next o
    pass passed (keeps rest) = keeps (cons (ground arith) rest)
    pass passed (finds u at fit soon rest) = finds u (there at) fit soon (cons (ground arith) rest)

Walks-IsNext :
    {exclude : Option ℕ} {ts : List Task} {o : Option ℕ}
    → Walks exclude ts 0 none o
    → IsNext exclude ts o
Walks-IsNext (keeps rest) = no_timeout (AllTrue-mono (λ u h. ground arith) rest)
Walks-IsNext (finds t at fit soon rest) = next_timeout t at fit rest

-- The walk finds the task that times out next: not done, not the one left out, with a timeout, and
-- none of the others is sooner. It finds none exactly if no task is such.
pub recalc_next_timeout-IsNext :
    (exclude : Option ℕ) (r : TaskRunner)
    → IsNext exclude r.tasks (recalc_next_timeout exclude r).next_timeout_task
unfolding recalc_next_timeout
recalc_next_timeout-IsNext exclude r = Walks-IsNext (recalc_over-Walks exclude r.tasks 0 none)

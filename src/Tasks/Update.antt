-- ===== src/Tasks/Update.antt =====
-- A task's timeout is changed (taskrunner.cc: UpdateTaskTimeout; task.cc: ResetTimeout,
-- ClearTimeout, SuspendTimeout).
use txmpp.Common.{
  ℕ, ◌≤◌, Bool, true, false, not, ◌||◌, ◌≡◌, refl, ap, sym, subst, ◌∙◌, ◌⊎◌, inl, inr, List, [],
  ◌∷◌, Option, none, some, leb, ◌==◌, if◌then◌else◌, arith, Bool-cases, AllTrue, nil, cons,
  AllTrue-mono,
}
use txmpp.Tasks.{
  Task, TaskRunner, find_task, set_task, timeout_of, timeout_at, is_task, may_time_out,
  recalc_next_timeout, choose_next, changed, check_for_timeout_change, update_task_timeout,
  next_task_timeout, with_timeout, reset_timeout, clear_timeout, suspend_timeout,
  set_timeout_seconds,
}
use txmpp.Tasks.Soonest.{
  Among, not_sooner, IsNext, no_timeout, next_timeout, recalc_next_timeout-IsNext,
}
use txmpp.Tasks.Store.{
  UniqueIds, find_task-Among, AllTrue-set_task, Among-set_task, Among-set_task_new,
  find_task-set_task, find_task-set_task_new,
}

AllTrue-both :
    {p q o : Task → Bool} {ts : List Task}
    → ((t : Task) → p t ≡ true → q t ≡ true → o t ≡ true)
    → AllTrue p ts
    → AllTrue q ts
    → AllTrue o ts
AllTrue-both f nil nil = nil
AllTrue-both f (cons {x} h hs) (cons k ks) = cons (f x h k) (AllTrue-both f hs ks)

-- Where the one that is left out cannot time out, nothing is left out.
abbrev spares : Option ℕ → Task → Bool
spares exclude u = not (may_time_out u) || not (is_task exclude u.unique_id)

IsNext-spares :
    {exclude : Option ℕ} {ts : List Task} {o : Option ℕ}
    → AllTrue (spares exclude) ts
    → IsNext exclude ts o
    → IsNext none ts o
IsNext-spares all (no_timeout rest) = no_timeout (AllTrue-both (λ u h k. ground arith) all rest)
IsNext-spares all (next_timeout t at fit rest) =
    next_timeout t at (ground arith) (AllTrue-both (λ u h k. ground arith) all rest)

spares-set_task :
    (t : Task) (ts : List Task)
    → may_time_out t ≡ false
    → AllTrue (spares (some t.unique_id)) (set_task t ts)
unfolding set_task
spares-set_task t [] idle = nil
spares-set_task t (x ∷ ts) idle = elim (Bool-cases (x.unique_id == t.unique_id)) [
  | inl same ↦ rw same (cons (ground arith) (spares-set_task t ts idle))
  | inr other ↦ rw other (cons (ground arith) (spares-set_task t ts idle))
]

module _ (t' : Task) {t : Task} (ts : List Task) (found : find_task t'.unique_id ts ≡ some t) where
  take_it :
      (m : ℕ)
      → may_time_out t' ≡ true
      → AllTrue (λ u. not (may_time_out u) || leb m u.timeout_time) ts
      → t'.timeout_time ≤ m
      → IsNext none (set_task t' ts) (some t'.unique_id)
  take_it m fit rest le =
      next_timeout t' (Among-set_task_new t' ts found) (ground arith)
        (AllTrue-set_task t' (ground arith) (AllTrue-mono (λ u h. ground arith) rest))

  keep_it :
      (next : Option ℕ)
      → is_task next t'.unique_id ≡ false
      → ((m : ℕ) → timeout_at ts next ≡ m → not_sooner none m t' ≡ true)
      → (next ≡ none → may_time_out t' ≡ false)
      → UniqueIds ts
      → IsNext none ts next
      → IsNext none (set_task t' ts) next
  keep_it next other late idle unique (no_timeout rest) =
      no_timeout (AllTrue-set_task t' (let h = idle refl in ground arith) rest)
  keep_it next other late idle unique (next_timeout n at fit rest) =
      let h = late n.timeout_time (ap timeout_of (find_task-Among n at unique)) in
      next_timeout n (Among-set_task t' n (ground arith) at) fit (AllTrue-set_task t' h rest)

-- The pointer after a change, from what it was before.
abbrev chosen : Task → List Task → TaskRunner → Option ℕ → Option ℕ
chosen t ts r next =
    (choose_next t (is_task next t.unique_id)
      (record r { tasks = set_task t ts; next_timeout_task = next })).next_timeout_task

module _ (t t' : Task) (ts : List Task) (r : TaskRunner) where
  chosen_without :
      (next : Option ℕ)
      → (t'.timeout_time == 0) ≡ true
      → UniqueIds ts
      → find_task t'.unique_id ts ≡ some t
      → IsNext none ts next
      → IsNext none (set_task t' ts) (chosen t' ts r next)
  chosen_without next zero_time unique found h = elim (Bool-cases (is_task next t'.unique_id)) [
    | inl mine ↦
        rw (chosen, choose_next, zero_time, mine)
          (IsNext-spares (spares-set_task t' ts (ground arith)) (
            recalc_next_timeout-IsNext (some t'.unique_id)
              (record r { tasks = set_task t' ts; next_timeout_task = next })))
    | inr other ↦
        rw (chosen, choose_next, zero_time, other)
          (keep_it t' ts found next other (λ m e. ground arith) (λ e. ground arith) unique h)
  ]

  -- With a timeout, the task is compared with the one that the pointer leads to.
  compared :
      (id m : ℕ) (b : Bool)
      → (t'.timeout_time == 0) ≡ false
      → timeout_at (set_task t' ts) (some id) ≡ m
      → leb t'.timeout_time m ≡ b
      → chosen t' ts r (some id) ≡ (if b then some t'.unique_id else some id)
  compared id m true some_time e h = rw (chosen, choose_next, some_time, e, h) refl
  compared id m false some_time e h = rw (chosen, choose_next, some_time, e, h) refl

  same_task :
      (n : Task)
      → (n.unique_id == t'.unique_id) ≡ true
      → UniqueIds ts
      → find_task t'.unique_id ts ≡ some t
      → Among n ts
      → (n.timeout_time ≡ t.timeout_time)
        × (timeout_at (set_task t' ts) (some n.unique_id) ≡ t'.timeout_time)
  same_task n same unique found at =
      let id : n.unique_id ≡ t'.unique_id = ground arith in
      (
        ap timeout_of (sym (find_task-Among n at unique) ∙ ap (λ k. find_task k ts) id ∙ found),
        ap (λ k. timeout_of (find_task k (set_task t' ts))) id
            ∙ ap timeout_of (find_task-set_task_new t' ts found),
      )

  chosen_with :
      (next : Option ℕ)
      → (t'.timeout_time == 0) ≡ false
      → t'.done ≡ false
      → UniqueIds ts
      → find_task t'.unique_id ts ≡ some t
      → (is_task next t'.unique_id ≡ false) ⊎ (t'.timeout_time ≤ t.timeout_time)
      → IsNext none ts next
      → IsNext none (set_task t' ts) (chosen t' ts r next)
  chosen_with next some_time alive unique found sooner (no_timeout rest) =
      rw (chosen, choose_next, some_time)
        (take_it t' ts found t'.timeout_time (ground arith)
          (AllTrue-mono (λ u h. ground arith) rest) (omega arith))
  chosen_with next some_time alive unique found sooner (next_timeout n at fit rest) =
      elim (Bool-cases (n.unique_id == t'.unique_id)) [
        | inl same ↦
            let (was, is_now) = same_task n same unique found at in
            subst (IsNext none (set_task t' ts))
              (sym (compared n.unique_id t'.timeout_time true some_time is_now (ground arith)))
              (take_it t' ts found n.timeout_time (ground arith)
                (AllTrue-mono (λ u h. ground arith) rest) (ground arith))
        | inr other ↦
            let is_now =
              ap timeout_of
                (find_task-set_task t' ts n.unique_id other ∙ find_task-Among n at unique) in
            elim (Bool-cases (leb t'.timeout_time n.timeout_time)) [
              | inl soon ↦
                  subst (IsNext none (set_task t' ts))
                    (sym (compared n.unique_id n.timeout_time true some_time is_now soon))
                    (take_it t' ts found n.timeout_time (ground arith)
                      (AllTrue-mono (λ u h. ground arith) rest) (ground arith))
              | inr late ↦
                  subst (IsNext none (set_task t' ts))
                    (sym (compared n.unique_id n.timeout_time false some_time is_now late))
                    (next_timeout n (Among-set_task t' n other at) fit
                      (AllTrue-set_task t' (ground arith) rest))
            ]
      ]

next-check :
    (now previous : ℕ) (r : TaskRunner)
    → (check_for_timeout_change now previous r).next_timeout_task ≡ r.next_timeout_task
unfolding check_for_timeout_change
next-check now previous r = ground arith

next-update :
    (now previous : ℕ) (t : Task) (r : TaskRunner)
    → (changed now t previous r).next_timeout_task ≡ chosen t r.tasks r r.next_timeout_task
unfolding update_task_timeout
next-update now previous t r = elim (Bool-cases r.tasks_running) [
  | inl running ↦ rw running refl
  | inr still ↦ rw still (next-check now _ _)
]

tasks-recalc : (ex : Option ℕ) (r : TaskRunner) → (recalc_next_timeout ex r).tasks ≡ r.tasks
unfolding recalc_next_timeout
tasks-recalc ex r = refl

tasks-choose_next : (t : Task) (b : Bool) (r : TaskRunner) → (choose_next t b r).tasks ≡ r.tasks
tasks-choose_next t b r = ground (arith, tasks-recalc (some t.unique_id) r)

tasks-check :
    (now previous : ℕ) (r : TaskRunner) → (check_for_timeout_change now previous r).tasks ≡ r.tasks
unfolding check_for_timeout_change
tasks-check now previous r = ground arith

tasks-if :
    {ts : List Task} (b : Bool) (x y : TaskRunner)
    → x.tasks ≡ ts
    → y.tasks ≡ ts
    → (if b then x else y).tasks ≡ ts
tasks-if true x y h k = h
tasks-if false x y h k = k

tasks-changed :
    (now previous : ℕ) (t : Task) (r : TaskRunner)
    → (changed now t previous r).tasks ≡ set_task t r.tasks
unfolding update_task_timeout
tasks-changed now previous t r =
    let mine = is_task r.next_timeout_task t.unique_id in
    let r1 : TaskRunner = record r { tasks = set_task t r.tasks } in
    let before = if mine then previous else next_task_timeout r1 in
    let same = tasks-choose_next t mine r1 in
    tasks-if (not r.tasks_running) _ _ (tasks-check now before (choose_next t mine r1) ∙ same) same

-- The pointer is at the task that times out next.
abbrev pub PointsToNext : TaskRunner → Type 0
PointsToNext r = IsNext none r.tasks r.next_timeout_task

-- In a runner whose tasks have different ids, a change of the timeout of one that is not done leaves
-- the pointer at the task that times out next, if it was there before, unless the task is the one
-- pointed at and its timeout moves to a later time.
pub changed-PointsToNext :
    (now : ℕ) (t t' : Task) (r : TaskRunner)
    → UniqueIds r.tasks
    → find_task t'.unique_id r.tasks ≡ some t
    → t'.done ≡ false
    → (is_task r.next_timeout_task t'.unique_id ≡ false) ⊎ (t'.timeout_time ≤ t.timeout_time)
    → PointsToNext r
    → PointsToNext (changed now t' t.timeout_time r)
changed-PointsToNext now t t' r unique found alive sooner h =
    subst (λ ts. IsNext none ts (changed now t' t.timeout_time r).next_timeout_task)
      (sym (tasks-changed now t.timeout_time t' r))
      (subst (IsNext none (set_task t' r.tasks)) (sym (next-update now t.timeout_time t' r))
        (elim (Bool-cases (t'.timeout_time == 0)) [
          | inl nothing ↦ chosen_without t t' r.tasks r r.next_timeout_task nothing unique found h
          | inr something ↦
              chosen_with t t' r.tasks r r.next_timeout_task something alive unique found sooner h
        ]))

-- In a runner whose tasks have different ids and whose pointer is at the task that times out next,
-- clearing or suspending the timeout of a task that is not done leaves the pointer right, and so
-- does setting the timeout of one that it does not point at.
pub timeouts-PointsToNext :
    (now seconds : ℕ) (t : Task) (r : TaskRunner)
    → UniqueIds r.tasks
    → find_task t.unique_id r.tasks ≡ some t
    → t.done ≡ false
    → PointsToNext r
    → PointsToNext (clear_timeout now t r)
      × PointsToNext (suspend_timeout now t r)
      × ((is_task r.next_timeout_task t.unique_id ≡ true)
          ⊎ PointsToNext (set_timeout_seconds now seconds t r))
unfolding clear_timeout suspend_timeout reset_timeout set_timeout_seconds
timeouts-PointsToNext now seconds t r unique found alive h = (
  changed-PointsToNext now t (record t { timeout_time = 0 }) r unique found alive
      (inr (omega arith)) h,
  elim (Bool-cases t.timeout_suspended) [
    | inl suspended ↦ rw suspended h
    | inr going ↦ rw going (
        changed-PointsToNext now t (with_timeout now (record t { timeout_suspended = true })) r
          unique found alive (inr (ground arith)) h)
  ],
  elim (Bool-cases (is_task r.next_timeout_task t.unique_id)) [
    | inl pointed ↦ inl pointed
    | inr other ↦ inr (
        changed-PointsToNext now t (with_timeout now (record t { timeout_seconds = seconds })) r
          unique found alive (inl other) h)
  ],
)

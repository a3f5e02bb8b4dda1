-- ===== src/Tasks.antt =====
-- The timeouts of tasks: Task (task.h, task.cc) and TaskRunner (taskrunner.h, taskrunner.cc). A
-- task is known by its unique id; the runner's pointer to the next task that may time out is that
-- id. Times are numbers of 100 ns, and the current time is an argument.
pub mod Soonest
pub mod Store
pub mod Update
pub mod Steps
pub mod Tree
pub mod Aborts
pub mod Family
pub mod Stops
use txmpp.Common.{
  ℕ, zero, suc, ◌+◌, ◌*◌, Bool, true, false, not, ◌&&◌, ◌||◌, List, [], ◌∷◌, ◌++◌, Option, none,
  some, ltb, leb, ◌==◌, if◌then◌else◌,
}

abbrev pub state_init : ℕ
state_init = 0

abbrev pub state_start : ℕ
state_start = 1

abbrev pub state_done : ℕ
state_done = 2

abbrev pub state_error : ℕ
state_error = 3

abbrev pub state_response : ℕ
state_response = 4

abbrev pub k_sec_to_100ns : ℕ
k_sec_to_100ns = 1000 * 10000

pub record Task : Type 0 where
  pub unique_id : ℕ
  pub state : ℕ
  pub done : Bool
  pub timeout_time : ℕ
  pub timeout_seconds : ℕ
  pub timeout_suspended : Bool

-- tasks_, next_timeout_task_ and tasks_running_; the last field counts the calls of OnTimeoutChange.
pub record TaskRunner : Type 0 where
  pub tasks : List Task
  pub next_timeout_task : Option ℕ
  pub tasks_running : Bool
  pub timeout_changes : ℕ

-- Where the pointer points, and a task as it is after a change.
unfoldable pub find_task : ℕ → List Task → Option Task
find_task id [] = none
find_task id (t ∷ ts) = if t.unique_id == id then some t else find_task id ts

unfoldable pub set_task : Task → List Task → List Task
set_task t [] = []
set_task t (u ∷ us) = (if u.unique_id == t.unique_id then t else u) ∷ set_task t us

abbrev pub timeout_of : Option Task → ℕ
timeout_of none = 0
timeout_of (some t) = t.timeout_time

abbrev pub timeout_at : List Task → Option ℕ → ℕ
timeout_at ts none = 0
timeout_at ts (some id) = timeout_of (find_task id ts)

-- TaskRunner::next_task_timeout
unfoldable pub next_task_timeout : TaskRunner → ℕ
unfolding find_task
next_task_timeout r = timeout_at r.tasks r.next_timeout_task

abbrev pub is_task : Option ℕ → ℕ → Bool
is_task none id = false
is_task (some k) id = id == k

-- The tests of RecalcNextTimeout on one task, without and with the task left out.
abbrev pub may_time_out : Task → Bool
may_time_out t = not t.done && ltb 0 t.timeout_time

abbrev pub is_candidate : Option ℕ → Task → Bool
is_candidate exclude t = may_time_out t && not (is_task exclude t.unique_id)

-- The loop: next_timeout_time and the task so far.
unfoldable pub recalc_over : Option ℕ → List Task → ℕ → Option ℕ → Option ℕ
recalc_over exclude [] time next = next
recalc_over exclude (t ∷ ts) time next =
    let taken = recalc_over exclude ts t.timeout_time (some t.unique_id) in
    let passed = recalc_over exclude ts time next in
    if is_candidate exclude t && (time == 0 || leb t.timeout_time time) then taken else passed

-- TaskRunner::RecalcNextTimeout
unfoldable pub recalc_next_timeout : Option ℕ → TaskRunner → TaskRunner
unfolding recalc_over
recalc_next_timeout exclude r = record r { next_timeout_task = recalc_over exclude r.tasks 0 none }

-- TaskRunner::CheckForTimeoutChange
unfoldable pub check_for_timeout_change : ℕ → ℕ → TaskRunner → TaskRunner
unfolding next_task_timeout
check_for_timeout_change now previous r =
    let next_timeout = next_task_timeout r in
    let timeout_change =
      (previous == 0 && not (next_timeout == 0))
      || ltb next_timeout previous
      || (leb previous now && not (previous == next_timeout)) in
    if timeout_change then record r { timeout_changes = r.timeout_changes + 1 } else r

-- The middle of UpdateTaskTimeout, where the pointer is set.
abbrev pub choose_next : Task → Bool → TaskRunner → TaskRunner
choose_next t is_timeout_task r =
    if not (t.timeout_time == 0)
    then (if not (is_set r.next_timeout_task)
          || leb t.timeout_time (timeout_at r.tasks r.next_timeout_task)
        then record r { next_timeout_task = some t.unique_id }
        else r)
    else if is_timeout_task
    then recalc_next_timeout (some t.unique_id) r
    else r
  where
    is_set : Option ℕ → Bool
    is_set none = false
    is_set (some id) = true

-- TaskRunner::UpdateTaskTimeout
unfoldable pub update_task_timeout : ℕ → Task → ℕ → TaskRunner → TaskRunner
unfolding recalc_next_timeout check_for_timeout_change next_task_timeout
update_task_timeout now t previous_task_timeout_time r =
    let is_timeout_task = is_task r.next_timeout_task t.unique_id in
    let previous = if is_timeout_task then previous_task_timeout_time else next_task_timeout r in
    let chosen = choose_next t is_timeout_task r in
    if not r.tasks_running then check_for_timeout_change now previous chosen else chosen

-- TaskRunner::StartTask, up to the call of WakeTasks.
unfoldable pub start_task : ℕ → Task → TaskRunner → TaskRunner
unfolding update_task_timeout
start_task now t r = update_task_timeout now t 0 (record r { tasks = r.tasks ++ t ∷ [] })

-- Task::TimedOut
abbrev pub timed_out : ℕ → Task → Bool
timed_out now t =
    not (t.timeout_seconds == 0) && not (t.timeout_time == 0) && leb t.timeout_time now

abbrev pub timeout_allowed : Task → Bool
timeout_allowed t =
    not (t.state == state_init) && not (t.state == state_done) && not (t.state == state_error)

-- The task that Task::ResetTimeout leaves.
abbrev pub with_timeout : ℕ → Task → Task
with_timeout now t = record t {
  timeout_time =
      if not (t.timeout_seconds == 0) && timeout_allowed t && not t.timeout_suspended
      then now + t.timeout_seconds * k_sec_to_100ns
      else 0;
}

abbrev pub changed : ℕ → Task → ℕ → TaskRunner → TaskRunner
changed now t previous r =
    update_task_timeout now t previous (record r { tasks = set_task t r.tasks })

-- Task::ResetTimeout
unfoldable pub reset_timeout : ℕ → Task → TaskRunner → TaskRunner
unfolding update_task_timeout set_task
reset_timeout now t r = changed now (with_timeout now t) t.timeout_time r

-- Task::ClearTimeout
unfoldable pub clear_timeout : ℕ → Task → TaskRunner → TaskRunner
unfolding update_task_timeout set_task
clear_timeout now t r = changed now (record t { timeout_time = 0 }) t.timeout_time r

-- Task::set_timeout_seconds
unfoldable pub set_timeout_seconds : ℕ → ℕ → Task → TaskRunner → TaskRunner
unfolding reset_timeout
set_timeout_seconds now seconds t r = reset_timeout now (record t { timeout_seconds = seconds }) r

-- Task::SuspendTimeout
unfoldable pub suspend_timeout : ℕ → Task → TaskRunner → TaskRunner
unfolding reset_timeout
suspend_timeout now t r =
    if not t.timeout_suspended
    then reset_timeout now (record t { timeout_suspended = true }) r
    else r

-- Task::ResumeTimeout
unfoldable pub resume_timeout : ℕ → Task → TaskRunner → TaskRunner
unfolding reset_timeout
resume_timeout now t r =
    if t.timeout_suspended then reset_timeout now (record t { timeout_suspended = false }) r else r

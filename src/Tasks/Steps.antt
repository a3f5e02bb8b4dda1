-- ===== src/Tasks/Steps.antt =====
-- The steps of one task: Task::Step, Abort, Wake and Error (task.h, task.cc). A task is its state and
-- its flags; what an operation calls is told by a list. Process is a virtual method: it is given
-- by the calls that it makes on its own task and by the state that it returns.
use txmpp.Common.{
  ℕ, Bool, true, false, not, ◌||◌, List, [], ◌∷◌, ◌++◌, Option, none, some, ◌==◌, if◌then◌else◌,
}
use txmpp.Tasks.{state_init, state_start, state_done, state_error, state_response}

pub record Steps : Type 0 where
  pub state : ℕ
  pub blocked : Bool
  pub done : Bool
  pub aborted : Bool
  pub busy : Bool
  pub error : Bool

-- Task::Task
abbrev pub new_steps : Steps
new_steps = record {
  state = state_init;
  blocked = false;
  done = false;
  aborted = false;
  busy = false;
  error = false;
}

-- Calls on other objects: Stop, which leads to the parent, WakeTasks of the runner, and
-- ResetTimeout.
pub data Effect : Type 0 where
  stop wake_tasks reset_timeout : Effect

abbrev pub After : Type 0
After = Steps × List Effect

-- Task::Wake
unfoldable pub wake : Steps → After
wake t =
    if t.done
    then (t, [])
    else if t.blocked
    then (record t { blocked = false }, wake_tasks ∷ [])
    else (t, [])

-- Task::Error
unfoldable pub signal_error : Steps → After
unfolding wake
signal_error t = if t.error || t.done then (t, []) else wake (record t { error = true })

-- Task::Abort
unfoldable pub abort : Bool → Steps → After
abort nowake t =
    if t.done
    then (t, [])
    else if not t.busy
    then (
      record t { aborted = true; done = true; blocked = true; error = true },
      stop ∷ (if not nowake then wake_tasks ∷ [] else []),
    )
    else (record t { aborted = true }, [])

-- What Process may call on its own task.
pub data SelfCall : Type 0 where
  calls_wake calls_error : SelfCall
  calls_abort : Bool → SelfCall

unfoldable pub self_call : SelfCall → Steps → After
unfolding wake signal_error abort
self_call calls_wake t = wake t
self_call calls_error t = signal_error t
self_call (calls_abort nowake) t = abort nowake t

unfoldable pub self_calls : List SelfCall → Steps → After
unfolding self_call
self_calls [] t = (t, [])
self_calls (c ∷ cs) t =
    let (t1, es1) = self_call c t in let (t2, es2) = self_calls cs t1 in (t2, es1 ++ es2)

-- The part of Task::Step behind Process; none is STATE_BLOCKED.
abbrev settled : Option ℕ → Steps → After
settled none t = (record t { blocked = true }, [])
settled (some new_state) t = (record t { state = new_state; blocked = false }, reset_timeout ∷ [])

abbrev marked : Option ℕ → Steps → Steps
marked none t = t
marked (some new_state) t =
    if new_state == state_done
    then record t { done = true }
    else if new_state == state_error
    then record t { done = true; error = true }
    else t

unfoldable pub after_process : Option ℕ → Steps → After
after_process new_state t =
    let (t1, es) = settled new_state t in
    let t2 = marked new_state t1 in
    if t2.done then (record t2 { blocked = true }, es ++ stop ∷ []) else (t2, es)

-- The part of Task::Step that calls Process.
unfoldable pub process_step : List SelfCall → Option ℕ → Steps → After
unfolding self_calls abort after_process
process_step calls new_state t =
    let (t1, es1) = self_calls calls (record t { busy = true }) in
    let idle = record t1 { busy = false } in
    let (t2, es2) = if t1.aborted then abort true idle else after_process new_state idle in
    (t2, es1 ++ es2)

-- Task::Step
unfoldable pub step : List SelfCall → Option ℕ → Steps → After
unfolding process_step
step calls new_state t =
    if t.done
    then (record t { blocked = true }, [])
    else if t.error
    then (record t { done = true; state = state_error; blocked = true }, stop ∷ [])
    else process_step calls new_state t

-- Task::Process, where a subclass does not replace it: the state that comes next, by what
-- OnTimeout, ProcessStart and ProcessResponse return.
unfoldable pub process : Bool → Option ℕ → Option ℕ → Option ℕ → ℕ → Option ℕ
process timed_out on_timeout process_start process_response state =
    if timed_out
    then on_timeout
    else if state == state_init
    then some state_start
    else if state == state_start
    then process_start
    else if state == state_response
    then process_response
    else if state == state_done || state == state_error
    then none
    else some state_error

-- What happens to a task from outside.
pub data Event : Type 0 where
  steps : List SelfCall → Option ℕ → Event
  aborts : Bool → Event
  wakes errors : Event

unfoldable pub happens : Event → Steps → After
unfolding step abort wake signal_error
happens (steps calls new_state) t = step calls new_state t
happens (aborts nowake) t = abort nowake t
happens wakes t = wake t
happens errors t = signal_error t

unfoldable pub run : List Event → Steps → After
unfolding happens
run [] t = (t, [])
run (v ∷ vs) t = let (t1, es1) = happens v t in let (t2, es2) = run vs t1 in (t2, es1 ++ es2)

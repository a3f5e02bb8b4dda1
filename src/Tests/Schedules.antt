-- ===== src/Tests/Schedules.antt =====
-- Timeouts of tasks (task.cc, taskrunner.cc).
use txmpp.Common.{true, false, ◌≡◌, refl, inl, [], ◌∷◌, some, none, nil, cons}
use txmpp.Tasks.{
  Task, TaskRunner, state_start, find_task, changed, reset_timeout, next_task_timeout,
}
use txmpp.Tasks.Soonest.{here, next_timeout}
use txmpp.Tasks.Steps.{run, new_steps, steps, wakes, aborts, errors, calls_wake, calls_error}
use txmpp.Tasks.Stops.{Behaves, run-Behaves}
use txmpp.Tasks.Store.{UniqueIds}
use txmpp.Tasks.Update.{PointsToNext, changed-PointsToNext}

abbrev first : Task
first = record {
  unique_id = 1;
  state = state_start;
  done = false;
  timeout_time = 10;
  timeout_seconds = 1;
  timeout_suspended = false;
}

abbrev second : Task
second = record first { unique_id = 2; timeout_time = 20 }

abbrev runner : TaskRunner
runner = record {
  tasks = first ∷ second ∷ [];
  next_timeout_task = some 1;
  tasks_running = false;
  timeout_changes = 0;
}

runner-PointsToNext : PointsToNext runner
runner-PointsToNext = next_timeout first here refl (cons refl (cons refl nil))

unique : UniqueIds runner.tasks
unique = (cons refl nil, (nil, tt))

changed-PointsToNext_example :
    PointsToNext (changed 5 (record second { timeout_time = 7 }) 20 runner)
unfolding find_task
changed-PointsToNext_example =
    changed-PointsToNext 5 second (record second { timeout_time = 7 }) runner unique refl refl
      (inl refl) runner-PointsToNext

-- Where the task that the pointer is at gets a later timeout, the pointer stays: the runner goes
-- by that time, though the second task times out at 20.
passed_over : next_task_timeout (reset_timeout 8 first runner) ≡ 10_000_008
unfolding next_task_timeout reset_timeout
passed_over = refl

-- A start that returns STATE_DONE, after a wake from outside.
run-Behaves_example : Behaves new_steps (
    run
      (steps [] (some 1) ∷ wakes ∷ steps (calls_wake ∷ []) (some 2) ∷ aborts false ∷ [])
      new_steps)
run-Behaves_example =
    run-Behaves (steps [] (some 1) ∷ wakes ∷ steps (calls_wake ∷ []) (some 2) ∷ aborts false ∷ [])
      new_steps refl

-- An error that Process signals before it returns STATE_BLOCKED leaves the task blocked, and the
-- next error is not signalled either.
lost_error :
    run (steps (calls_error ∷ []) none ∷ errors ∷ []) new_steps
    ≡ (record new_steps { blocked = true; error = true }, [])
unfolding run
lost_error = refl

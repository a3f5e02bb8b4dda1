-- ===== src/Tasks/Tree.antt =====
-- The tree of tasks (taskparent.cc): a task with its children, those that have stopped included,
-- since they stay in memory until the runner deletes them. is_child says that a task stands in
-- children_ of its parent.
use txmpp.Common.{ℕ, Bool, true, false, not, ◌&&◌, ◌||◌, List, [], ◌∷◌, ◌==◌, if◌then◌else◌}
use txmpp.Tasks.{state_error}
use txmpp.Tasks.Steps.{
  Steps, new_steps, Effect, stop, wake_tasks, reset_timeout, abort, Event, happens,
}

pub record Node : Type 0 where
  pub unique_id : ℕ
  pub steps : Steps
  pub child_error : Bool
  pub is_child : Bool

mutual
  pub data TaskTree : Type 0 where
    task : Node → Children → TaskTree

  pub data Children : Type 0 where
    no_more : Children
    child : TaskTree → Children → Children

abbrev pub root : TaskTree → Node
root (task n cs) = n

-- TaskParent::AllChildrenDone
unfoldable pub all_children_done : Children → Bool
all_children_done no_more = true
all_children_done (child t cs) =
    (not (root t).is_child || (root t).steps.done) && all_children_done cs

-- The call of Stop among the calls of a task.
unfoldable pub stops_now : List Effect → Bool
stops_now [] = false
stops_now (stop ∷ es) = true
stops_now (wake_tasks ∷ es) = stops_now es
stops_now (reset_timeout ∷ es) = stops_now es

-- Task::HasError, by which OnChildStopped notes an error at the parent. Abort sets error_ but not the
-- state, so the parent does not note a child that is aborted.
abbrev pub noted : Node → Bool
noted n = n.steps.state == state_error

-- Abort(true) of a task that its parent aborts, with OnStopped where it stops; the Boolean is the
-- error that OnChildStopped notes at the parent. AbortAllChildren does this to each child in
-- children_.
unfoldable mutual
  unfolding abort stops_now

  pub abort_task : TaskTree → TaskTree × Bool
  abort_task (task n cs) =
      let (s, es) = abort true n.steps in
      let (cs', error) = abort_all_children cs in
      if stops_now es
      then (
        task (record n { steps = s; is_child = false; child_error = n.child_error || error }) cs',
        noted (record n { steps = s }),
      )
      else (task (record n { steps = s }) cs, false)

  pub abort_all_children : Children → Children × Bool
  abort_all_children no_more = (no_more, false)
  abort_all_children (child t cs) =
      let (t', error) = abort_task t in
      let (cs', errors) = abort_all_children cs in
      if (root t).is_child then (child t' cs', error || errors) else (child t cs', errors)

-- An operation on the steps of a node, with OnStopped where it stops.
unfoldable pub change_node : (Steps → Steps × List Effect) → Node → Children → TaskTree × Bool
unfolding stops_now abort_all_children
change_node f n cs =
    let (s, es) = f n.steps in
    let (cs', error) = abort_all_children cs in
    if stops_now es
    then (
      task (record n { steps = s; is_child = false; child_error = n.child_error || error }) cs',
      noted (record n { steps = s }),
    )
    else (task (record n { steps = s }) cs, false)

-- The same on the task with an id, and what its parent notes.
unfoldable mutual
  unfolding change_node

  pub change_task : ℕ → (Steps → Steps × List Effect) → TaskTree → TaskTree × Bool
  change_task id f (task n cs) =
      let (cs', error) = change_children id f cs in
      if n.unique_id == id
      then change_node f n cs
      else (task (record n { child_error = n.child_error || error }) cs', false)

  pub change_children : ℕ → (Steps → Steps × List Effect) → Children → Children × Bool
  change_children id f no_more = (no_more, false)
  change_children id f (child t cs) =
      let (t', error) = change_task id f t in
      let (cs', errors) = change_children id f cs in (child t' cs', error || errors)

-- The constructor of a task under a parent, with AddChild.
abbrev pub new_node : ℕ → Node
new_node id = record { unique_id = id; steps = new_steps; child_error = false; is_child = true }

unfoldable mutual
  pub add_child : ℕ → ℕ → TaskTree → TaskTree
  add_child parent id (task n cs) =
      let cs' = add_below parent id cs in
      if n.unique_id == parent then task n (child (task (new_node id) no_more) cs) else task n cs'

  pub add_below : ℕ → ℕ → Children → Children
  add_below parent id no_more = no_more
  add_below parent id (child t cs) = child (add_child parent id t) (add_below parent id cs)

-- What happens in a tree: something to the task with an id, or a new task under one.
pub data TreeEvent : Type 0 where
  to_task : ℕ → Event → TreeEvent
  adds : ℕ → ℕ → TreeEvent

unfoldable pub tree_happens : TreeEvent → TaskTree → TaskTree
unfolding change_task happens add_child
tree_happens (to_task id v) t = (change_task id (happens v) t).0
tree_happens (adds parent id) t = add_child parent id t

unfoldable pub tree_runs : List TreeEvent → TaskTree → TaskTree
unfolding tree_happens
tree_runs [] t = t
tree_runs (v ∷ vs) t = tree_runs vs (tree_happens v t)

-- ===== src/Tests/Families.antt =====
-- The tree of tasks (task.cc, taskparent.cc) at a concrete tree.
use txmpp.Common.{Bool, true, false, not, ◌||◌, ◌≡◌, refl, [], ◌∷◌, List, some}
use txmpp.Tasks.{state_error}
use txmpp.Tasks.Aborts.{is_sound}
use txmpp.Tasks.Family.{
  open_for, all_allowed, every_done, children, no_children, tree_runs-is_sound,
  abort_task-every_done,
}
use txmpp.Tasks.Steps.{steps, aborts}
use txmpp.Tasks.Tree.{
  TaskTree, Children, task, child, no_more, new_node, root, TreeEvent, to_task, adds, tree_runs,
  abort_task, all_children_done,
}

-- 1 with the child 2, which has the child 3.
abbrev family : TaskTree
family =
    task (new_node 1)
      (child (task (new_node 2) (child (task (new_node 3) no_more) no_more)) no_more)

-- 3 fails, 4 is added under 1, 2 is aborted.
abbrev story : List TreeEvent
story = to_task 3 (steps [] (some state_error)) ∷ adds 1 4 ∷ to_task 2 (aborts false) ∷ []

family_sound : is_sound family ≡ true
unfolding is_sound
family_sound = refl

story_allowed : all_allowed story family ≡ true
unfolding open_for tree_runs
story_allowed = refl

tree_runs-is_sound_example :
    (is_sound (tree_runs story family) ≡ true)
    × ((not (root family).steps.done || (root (tree_runs story family)).steps.done) ≡ true)
    × (all_children_done (children (tree_runs story family))
        ≡ no_children (children (tree_runs story family)))
tree_runs-is_sound_example = tree_runs-is_sound story family family_sound story_allowed

abbrev last_child_error : Children → Bool
last_child_error no_more = false
last_child_error (child t no_more) = (root t).child_error
last_child_error (child t cs) = last_child_error cs

-- The child 2, which was aborted, is not noted at 1; the error of 3 was noted at 2.
not_noted_at_root : (root (tree_runs story family)).child_error ≡ false
unfolding tree_runs
not_noted_at_root = refl

noted_at_child : last_child_error (children (tree_runs story family)) ≡ true
unfolding tree_runs
noted_at_child = refl

-- The new child 4 is not done.
still_children : all_children_done (children (tree_runs story family)) ≡ false
unfolding tree_runs all_children_done
still_children = refl

abort_task-every_done_example :
    (every_done (abort_task family).0 ≡ true) × (is_sound (abort_task family).0 ≡ true)
abort_task-every_done_example = abort_task-every_done family family_sound

-- ===== src/Tasks/Family.antt =====
-- The tree of tasks over any run of operations (task.cc, taskparent.cc).
use txmpp.Common.{
  ℕ, Bool, true, false, not, ◌&&◌, ◌||◌, ◌≡◌, refl, inl, inr, List, [], ◌∷◌, ◌==◌, arith,
  Bool-cases,
}
use txmpp.Tasks.Steps.{Steps, After, happens}
use txmpp.Tasks.Stops.{is_coherent, Behaves, happens-Behaves}
use txmpp.Tasks.Tree.{
  Node, TaskTree, task, Children, no_more, child, root, all_children_done, stops_now, abort_task,
  abort_all_children, abort_task, change_node, change_task, change_children, new_node, add_child,
  add_below, TreeEvent, to_task, adds, tree_happens, tree_runs,
}
use txmpp.Tasks.Aborts.{
  AllFare, AllFare-child, Fares, abort_all-AllFare, abort_task-Fares, all_over, all_sound, both,
  closing-Fares, in_order, is_sound, none_sound, parts, staying-Fares, stops_now-stops,
  stops_now_some,
}

-- An operation that behaves, on the task itself and wherever it stands in a tree.
change_node-Fares :
    (f : Steps → After) (n : Node) (cs : Children)
    → ((s : Steps) → is_coherent s ≡ true → Behaves s (f s))
    → is_sound (task n cs) ≡ true
    → Fares (task n cs) (change_node f n cs)
unfolding change_node
change_node-Fares f n cs behaves h =
    let (order, sound, coherent) = parts n cs h in
    let (s, es) = f n.steps in
    let (c, count, kept) = behaves n.steps coherent in
    let (fs, ds) = abort_all-AllFare cs sound in
    elim (Bool-cases (stops_now es)) [
      | inl e ↦
          let many = stops_now_some es e in
          rw e (
            closing-Fares n cs s (abort_all_children cs).0 (abort_all_children cs).1 order c
              (ground (arith, count, many)) fs.0 ds fs.2)
      | inr e ↦
          let nothing = stops_now-stops es e in
          rw e (
            staying-Fares n cs s order sound c (ground (arith, count, nothing))
              (elim kept [ inl g ↦ inl g | inr k ↦ inr k.1 ]))
    ]

module _ (id : ℕ) (f : Steps → After)
    (behaves : (s : Steps) → is_coherent s ≡ true → Behaves s (f s)) where
  noting-Fares :
      (n : Node) (cs cs' : Children) (error : Bool)
      → in_order n cs ≡ true
      → AllFare cs (cs', error)
      → Fares (task n cs) (task (record n { child_error = n.child_error || error }) cs', false)
  unfolding is_sound
  noting-Fares n cs cs' error h (s, d, fl) = (ground arith, ground arith, ground arith)

  change_task_here :
      (n : Node) (cs : Children)
      → (n.unique_id == id) ≡ true
      → change_task id f (task n cs) ≡ change_node f n cs
  unfolding change_task
  change_task_here n cs e = rw (change_task, e) refl

  change_task_below :
      (n : Node) (cs : Children)
      → (n.unique_id == id) ≡ false
      → change_task id f (task n cs) ≡ (
        task
            (record n { child_error = n.child_error || (change_children id f cs).1 })
            (change_children id f cs).0,
        false,
      )
  unfolding change_task
  change_task_below n cs e = rw (change_task, e) refl

  mutual
    unfolding change_task

    change_task-Fares : (t : TaskTree) → is_sound t ≡ true → Fares t (change_task id f t)
    change_task-Fares (task n cs) h =
        let (order, sound, coherent) = parts n cs h in
        elim (Bool-cases (n.unique_id == id)) [
          | inl e ↦ rw (change_task_here n cs e) (change_node-Fares f n cs behaves h)
          | inr e ↦ rw (change_task_below n cs e) (
              noting-Fares n cs (change_children id f cs).0 (change_children id f cs).1 order
                (change_children-AllFare cs sound))
        ]

    change_children-AllFare :
        (cs : Children) → all_sound cs ≡ true → AllFare cs (change_children id f cs)
    change_children-AllFare no_more h = (none_sound, refl, refl)
    change_children-AllFare (child t cs) h =
        let (one, rest) = both t cs h in
        AllFare-child t (change_task id f t).0 cs (change_children id f cs).0 (change_task id f t).1
          (change_children id f cs).1 (change_task-Fares t one) (change_children-AllFare cs rest)

-- The tasks with an id are not done.
unfoldable mutual
  pub open_for : ℕ → TaskTree → Bool
  open_for id (task n cs) = (not (n.unique_id == id) || not n.steps.done) && all_open id cs

  pub all_open : ℕ → Children → Bool
  all_open id no_more = true
  all_open id (child t cs) = open_for id t && all_open id cs

-- No task is added under one that is done.
abbrev pub is_allowed : TreeEvent → TaskTree → Bool
is_allowed (to_task id v) t = true
is_allowed (adds parent id) t = open_for parent t

abbrev pub all_allowed : List TreeEvent → TaskTree → Bool
all_allowed [] t = true
all_allowed (v ∷ vs) t = is_allowed v t && all_allowed vs (tree_happens v t)

add_here :
    (n : Node) (cs : Children) (id : ℕ)
    → in_order n cs ≡ true
    → all_sound cs ≡ true
    → n.steps.done ≡ false
    → Fares (task n cs) (task n (child (task (new_node id) no_more) cs), false)
unfolding is_sound
add_here n cs id h sound going = (ground arith, ground arith, ground arith)

below-Fares :
    (n : Node) (cs cs' : Children)
    → in_order n cs ≡ true
    → AllFare cs (cs', false)
    → Fares (task n cs) (task n cs', false)
unfolding is_sound
below-Fares n cs cs' h (s, d, f) = (ground arith, ground arith, ground arith)

module _ (parent id : ℕ) where
  add_child_at :
      (n : Node) (cs : Children)
      → (n.unique_id == parent) ≡ true
      → add_child parent id (task n cs) ≡ task n (child (task (new_node id) no_more) cs)
  unfolding add_child
  add_child_at n cs e = rw (add_child, e) refl

  add_child_below :
      (n : Node) (cs : Children)
      → (n.unique_id == parent) ≡ false
      → add_child parent id (task n cs) ≡ task n (add_below parent id cs)
  unfolding add_child
  add_child_below n cs e = rw (add_child, e) refl

  mutual
    unfolding add_child open_for

    add_child-Fares :
        (t : TaskTree)
        → is_sound t ≡ true
        → open_for parent t ≡ true
        → Fares t (add_child parent id t, false)
    add_child-Fares (task n cs) h k =
        let (order, sound, coherent) = parts n cs h in
        elim (Bool-cases (n.unique_id == parent)) [
          | inl e ↦ rw (add_child_at n cs e) (add_here n cs id order sound (ground (arith, k, e)))
          | inr e ↦ rw (add_child_below n cs e) (
              below-Fares n cs (add_below parent id cs) order
                (add_below-AllFare cs sound (ground (arith, k))))
        ]

    add_below-AllFare :
        (cs : Children)
        → all_sound cs ≡ true
        → all_open parent cs ≡ true
        → AllFare cs (add_below parent id cs, false)
    add_below-AllFare no_more h k = (none_sound, refl, refl)
    add_below-AllFare (child t cs) h k =
        let (one, rest) = both t cs h in
        AllFare-child t (add_child parent id t) cs (add_below parent id cs) false false
          (add_child-Fares t one (ground (arith, k)))
          (add_below-AllFare cs rest (ground (arith, k)))

tree_happens-Fares :
    (v : TreeEvent) (t : TaskTree)
    → is_sound t ≡ true
    → is_allowed v t ≡ true
    → (error : Bool) × Fares t (tree_happens v t, error)
unfolding tree_happens
tree_happens-Fares (to_task id v) t h k =
    ((change_task id (happens v) t).1, change_task-Fares id (happens v) (happens-Behaves v) t h)
tree_happens-Fares (adds parent id) t h k = (false, add_child-Fares parent id t h k)

-- AllChildrenDone says whether children_ is empty.
abbrev pub no_children : Children → Bool
no_children no_more = true
no_children (child t cs) = not (root t).is_child && no_children cs

listed_going :
    (t : TaskTree) → is_sound t ≡ true → (not (root t).is_child || not (root t).steps.done) ≡ true
unfolding is_sound
listed_going (task n cs) h = ground arith

children_done : (cs : Children) → all_sound cs ≡ true → all_children_done cs ≡ no_children cs
unfolding all_children_done
children_done no_more h = refl
children_done (child t cs) h =
    let (one, rest) = both t cs h in ground (arith, listed_going t one, children_done cs rest)

abbrev pub children : TaskTree → Children
children (task n cs) = cs

root_children :
    (t : TaskTree) → is_sound t ≡ true → all_children_done (children t) ≡ no_children (children t)
root_children (task n cs) h = let (order, sound, coherent) = parts n cs h in children_done cs sound

-- Let every task of a tree be in order: not in Process, blocked if done and done if aborted, a
-- child of its parent just while it is not done, its children done if it is, and a child that has
-- stopped in STATE_ERROR noted. Over any run of steps, aborts, wakes and errors of its tasks, and
-- of new tasks under tasks that are not done, that stays so, a root that is done stays done, and
-- AllChildrenDone of the root says whether its set of children is empty.
pub tree_runs-is_sound :
    (vs : List TreeEvent) (t : TaskTree)
    → is_sound t ≡ true
    → all_allowed vs t ≡ true
    → (is_sound (tree_runs vs t) ≡ true)
      × ((not (root t).steps.done || (root (tree_runs vs t)).steps.done) ≡ true)
      × (all_children_done (children (tree_runs vs t)) ≡ no_children (children (tree_runs vs t)))
unfolding tree_runs
tree_runs-is_sound [] t h k = (h, ground arith, root_children t h)
tree_runs-is_sound (v ∷ vs) t h k =
    let (error, fares) = tree_happens-Fares v t h (ground (arith, k)) in
    let (s, d, f) = fares in
    let (s', d', c') = tree_runs-is_sound vs (tree_happens v t) s (ground (arith, k)) in
    (s', ground (arith, d, d'), c')

mutual
  pub every_done : TaskTree → Bool
  every_done (task n cs) = n.steps.done && each_done cs

  pub each_done : Children → Bool
  each_done no_more = true
  each_done (child t cs) = every_done t && each_done cs

mutual
  unfolding every_done is_sound

  sound_done : (t : TaskTree) → is_sound t ≡ true → (root t).steps.done ≡ true → every_done t ≡ true
  sound_done (task n cs) h d =
      let rest = sounds_done cs (ground (arith, h)) (ground (arith, h, d)) in
      ground (arith, rest, d)

  sounds_done : (cs : Children) → all_sound cs ≡ true → all_over cs ≡ true → each_done cs ≡ true
  sounds_done no_more h d = refl
  sounds_done (child t cs) h d =
      let one = sound_done t (ground (arith, h)) (ground (arith, d)) in
      let rest = sounds_done cs (ground (arith, h)) (ground (arith, d)) in ground (arith, one, rest)

-- Where every task of a tree is in order, as above, Abort of its root leaves all of its tasks done
-- and in order.
pub abort_task-every_done :
    (t : TaskTree)
    → is_sound t ≡ true
    → (every_done (abort_task t).0 ≡ true) × (is_sound (abort_task t).0 ≡ true)
abort_task-every_done t h =
    let (fares, over) = abort_task-Fares t h in (sound_done (abort_task t).0 fares.0 over, fares.0)

-- ===== src/Tasks/Aborts.antt =====
-- AbortAllChildren and OnStopped in the tree of tasks (task.cc, taskparent.cc).
use txmpp.Common.{
  ◌≤◌, Bool, true, false, not, ◌&&◌, ◌||◌, ◌≡◌, refl, sym, ◌⊎◌, inl, inr, List, [], ◌∷◌,
  if◌then◌else◌, arith, Bool-cases, false_not_true, ◌==◌,
}
use txmpp.Tasks.{state_error}
use txmpp.Tasks.Steps.{Steps, Effect, stop, wake_tasks, reset_timeout, abort}
use txmpp.Tasks.Stops.{stops, is_coherent}
use txmpp.Tasks.Tree.{
  Node, TaskTree, task, Children, no_more, child, root, stops_now, abort_task, abort_all_children,
}

-- Every child is done.
abbrev pub all_over : Children → Bool
all_over no_more = true
all_over (child t cs) = (root t).steps.done && all_over cs

-- A child has stopped in STATE_ERROR.
abbrev pub failed : Node → Bool
failed n = n.steps.done && n.steps.state == state_error

abbrev pub any_failed : Children → Bool
any_failed no_more = false
any_failed (child t cs) = failed (root t) || any_failed cs

-- A task in order: its flags are, it stands in children_ of its parent just while it is not done,
-- if it is done all its children are, and it notes that a child has stopped in STATE_ERROR.
abbrev pub in_order : Node → Children → Bool
in_order n cs =
    is_coherent n.steps
    && (if n.steps.done then not n.is_child else n.is_child)
    && (not n.steps.done || all_over cs)
    && (not (any_failed cs) || n.child_error)

unfoldable mutual
  pub is_sound : TaskTree → Bool
  is_sound (task n cs) = in_order n cs && all_sound cs

  pub all_sound : Children → Bool
  all_sound no_more = true
  all_sound (child t cs) = is_sound t && all_sound cs

-- What an operation makes of a task: it is in order, stays done if it was, and a stop in
-- STATE_ERROR is told.
abbrev pub Fares : TaskTree → TaskTree × Bool → Type 0
Fares t (t', error) =
    (is_sound t' ≡ true)
    × ((not (root t).steps.done || (root t').steps.done) ≡ true)
    × ((not (failed (root t')) || failed (root t) || error) ≡ true)

abbrev pub AllFare : Children → Children × Bool → Type 0
AllFare cs (cs', error) =
    (all_sound cs' ≡ true)
    × ((not (all_over cs) || all_over cs') ≡ true)
    × ((not (any_failed cs') || any_failed cs || error) ≡ true)

-- Stop is called just where the task becomes done.
pub stops_now-stops : (es : List Effect) → stops_now es ≡ false → stops es ≡ 0
unfolding stops_now
stops_now-stops [] h = refl
stops_now-stops (stop ∷ es) h = absurd (false_not_true (sym h))
stops_now-stops (wake_tasks ∷ es) h = stops_now-stops es h
stops_now-stops (reset_timeout ∷ es) h = stops_now-stops es h

pub stops_now_some : (es : List Effect) → stops_now es ≡ true → 1 ≤ stops es
unfolding stops_now
stops_now_some [] h = absurd (false_not_true h)
stops_now_some (stop ∷ es) h = omega arith
stops_now_some (wake_tasks ∷ es) h = stops_now_some es h
stops_now_some (reset_timeout ∷ es) h = stops_now_some es h

-- A task that stops, with its children aborted.
pub closing-Fares :
    (n : Node) (cs : Children) (s : Steps) (cs' : Children) (error : Bool)
    → in_order n cs ≡ true
    → is_coherent s ≡ true
    → s.done ≡ true
    → all_sound cs' ≡ true
    → all_over cs' ≡ true
    → (not (any_failed cs') || any_failed cs || error) ≡ true
    → Fares (task n cs) (
      task (record n { steps = s; is_child = false; child_error = n.child_error || error }) cs',
      s.state == state_error,
    )
unfolding is_sound
closing-Fares n cs s cs' error h c d sound over fails = ground arith

-- A task whose steps change but not its being done.
pub staying-Fares :
    (n : Node) (cs : Children) (s : Steps)
    → in_order n cs ≡ true
    → all_sound cs ≡ true
    → is_coherent s ≡ true
    → s.done ≡ n.steps.done
    → (n.steps.done ≡ false) ⊎ (s.state ≡ n.steps.state)
    → Fares (task n cs) (task (record n { steps = s }) cs, false)
unfolding is_sound
staying-Fares n cs s h sound c d (inl e) = ground arith
staying-Fares n cs s h sound c d (inr e) = ground arith

pub aborted : Steps → Steps
aborted s = record s { aborted = true; done = true; blocked = true; error = true }

pub abort_done : (s : Steps) → s.done ≡ true → abort true s ≡ (s, [])
unfolding abort
abort_done s h = rw (abort, h) refl

pub abort_going :
    (s : Steps) → s.done ≡ false → s.busy ≡ false → abort true s ≡ (aborted s, stop ∷ [])
unfolding abort aborted
abort_going s h k = rw (abort, h, k) refl

pub parts :
    (n : Node) (cs : Children)
    → is_sound (task n cs) ≡ true
    → (in_order n cs ≡ true) × (all_sound cs ≡ true) × (is_coherent n.steps ≡ true)
unfolding is_sound
parts n cs h = ground arith

-- What stands in no set of children is done.
pub stranger_done :
    (t : TaskTree) → is_sound t ≡ true → (root t).is_child ≡ false → (root t).steps.done ≡ true
unfolding is_sound
stranger_done (task n cs) h k = ground arith

pub both :
    (t : TaskTree) (cs : Children)
    → all_sound (child t cs) ≡ true
    → (is_sound t ≡ true) × (all_sound cs ≡ true)
unfolding is_sound
both t cs h = ground arith

pub none_sound : all_sound no_more ≡ true
unfolding is_sound
none_sound = refl

-- One child more.
pub AllFare-child :
    (t t' : TaskTree) (cs cs' : Children) (error errors : Bool)
    → Fares t (t', error)
    → AllFare cs (cs', errors)
    → AllFare (child t cs) (child t' cs', error || errors)
unfolding is_sound
AllFare-child t t' cs cs' error errors (s, d, f) (s', d', f') =
    (ground arith, ground arith, ground arith)

pub kept-Fares : (t : TaskTree) → is_sound t ≡ true → Fares t (t, false)
kept-Fares t h = (h, ground arith, ground arith)

mutual
  unfolding abort_task aborted

  pub abort_task-Fares :
      (t : TaskTree)
      → is_sound t ≡ true
      → Fares t (abort_task t) × ((root (abort_task t).0).steps.done ≡ true)
  abort_task-Fares (task n cs) h =
      let (order, sound, coherent) = parts n cs h in
      elim (Bool-cases n.steps.done) [
        | inl over ↦
            rw (abort_task, abort_done n.steps over)
              (staying-Fares n cs n.steps order sound coherent refl (inr refl), over)
        | inr going ↦
            let calm : n.steps.busy ≡ false = ground (arith, coherent) in
            let (f, o) = abort_all-AllFare cs sound in
            rw (abort_task, abort_going n.steps going calm)
              (
                closing-Fares n cs (aborted n.steps) (abort_all_children cs).0
                    (abort_all_children cs).1 order (ground (arith, calm)) refl f.0 o f.2,
                refl,
              )
      ]

  pub abort_all-AllFare :
      (cs : Children)
      → all_sound cs ≡ true
      → AllFare cs (abort_all_children cs) × (all_over (abort_all_children cs).0 ≡ true)
  abort_all-AllFare no_more h = ((none_sound, refl, refl), refl)
  abort_all-AllFare (child t cs) h =
      let (one, rest) = both t cs h in
      let (f, d) = abort_task-Fares t one in
      let (fs, ds) = abort_all-AllFare cs rest in
      elim (Bool-cases (root t).is_child) [
        | inl mine ↦ rw mine (
          AllFare-child t (abort_task t).0 cs (abort_all_children cs).0 (abort_task t).1
              (abort_all_children cs).1 f fs,
          ground (arith, d, ds),
        )
        | inr other ↦
            let over = stranger_done t one other in
            rw other (
              AllFare-child t t cs (abort_all_children cs).0 false (abort_all_children cs).1
                  (kept-Fares t one) fs,
              ground (arith, over, ds),
            )
      ]

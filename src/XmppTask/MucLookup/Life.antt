-- ===== src/XmppTask/MucLookup/Life.antt =====
-- The life of a room lookup: its steps (Task::Step with Task::Process of task.cc, and the handlers of
-- mucroomlookuptask.cc), the stanzas that come, and Abort, Wake and Error of the task.
use txmpp.Common.{ℕ, Bool, false, List, [], ◌∷◌, ◌++◌, Option, none, ◌||◌, ◌==◌, if◌then◌else◌}
use txmpp.Jid.{Jid}
use txmpp.Tasks.{state_start, state_response}
use txmpp.Tasks.Steps.{Steps, Effect, step, abort, wake, signal_error, process}
use txmpp.Xml.Element.{XmlElement}
use txmpp.Tasks.Tree.{stops_now}
use txmpp.XmppTask.{stop_impl}
use txmpp.XmppTask.MucLookup.{
  MucRoomLookupTask, Signal, process_start, process_response, on_timeout, handle_stanza,
}

abbrev pub steps_of : MucRoomLookupTask → Steps
steps_of t = t.base.steps

abbrev pub with_steps : Steps → MucRoomLookupTask → MucRoomLookupTask
with_steps s t = record t { base = record t.base { steps = s } }

-- What an operation of Task leaves; where it stops the task, XmppTask::Stop calls StopImpl.
unfoldable pub carried_out : Steps × List Effect → MucRoomLookupTask → MucRoomLookupTask
unfolding stops_now stop_impl
carried_out (s, effects) t =
    let t' = with_steps s t in
    if stops_now effects then record t' { base = (stop_impl t'.base).0 } else t'

-- Task::Process with the handlers of the lookup: whether it has timed out, and whether the client's
-- SendStanza answers XMPP_RETURN_OK.
unfoldable pub lookup_process :
    (ℕ → ℕ) → Bool → Bool → MucRoomLookupTask → MucRoomLookupTask × Option ℕ × List Signal
unfolding process_start process_response on_timeout process
lookup_process tolower timed_out sent t =
    if timed_out
    then (t, on_timeout.0, on_timeout.1)
    else if (steps_of t).state == state_start
    then (t, (process_start t sent).0, (process_start t sent).1)
    else if (steps_of t).state == state_response
    then process_response tolower t
    else (t, process false none none none (steps_of t).state, [])

-- Task::Step, which calls Process unless the task is done or has an error.
unfoldable pub lookup_step :
    (ℕ → ℕ) → Bool → Bool → MucRoomLookupTask → MucRoomLookupTask × List Signal
unfolding lookup_process step carried_out
lookup_step tolower timed_out sent t =
    if (steps_of t).done || (steps_of t).error
    then (carried_out (step [] none (steps_of t)) t, [])
    else let (t', new_state, signals) = lookup_process tolower timed_out sent t in
      (carried_out (step [] new_state (steps_of t)) t', signals)

pub data LookupEvent : Type 0 where
  lookup_steps : Bool → Bool → LookupEvent
  stanza_comes : Jid → XmlElement → LookupEvent
  lookup_aborts : Bool → LookupEvent
  lookup_wakes lookup_fails : LookupEvent

unfoldable pub lookup_happens :
    (ℕ → ℕ) → LookupEvent → MucRoomLookupTask → MucRoomLookupTask × List Signal
unfolding lookup_step handle_stanza abort wake signal_error carried_out
lookup_happens tolower (lookup_steps timed_out sent) t = lookup_step tolower timed_out sent t
lookup_happens tolower (stanza_comes me stanza) t = ((handle_stanza tolower me stanza t).1, [])
lookup_happens tolower (lookup_aborts nowake) t = (carried_out (abort nowake (steps_of t)) t, [])
lookup_happens tolower lookup_wakes t = (with_steps (wake (steps_of t)).0 t, [])
lookup_happens tolower lookup_fails t = (with_steps (signal_error (steps_of t)).0 t, [])

unfoldable pub lookup_runs :
    (ℕ → ℕ) → List LookupEvent → MucRoomLookupTask → MucRoomLookupTask × List Signal
unfolding lookup_happens
lookup_runs tolower [] t = (t, [])
lookup_runs tolower (v ∷ vs) t =
    let (t1, signals1) = lookup_happens tolower v t in
    let (t2, signals2) = lookup_runs tolower vs t1 in (t2, signals1 ++ signals2)

-- ===== src/XmppTask/Handlers.antt =====
-- What the handlers of a room lookup return and signal, and what its steps make of that
-- (mucroomlookuptask.cc, task.cc).
use txmpp.Common.{
  ℕ, Bool, true, false, not, ◌&&◌, ◌||◌, ◌≡◌, refl, inl, inr, List, [], ◌∷◌, Option, none, some,
  ◌==◌, arith, Bool-cases,
}
use txmpp.Tasks.{state_init, state_start, state_done, state_error, state_response}
use txmpp.Tasks.Steps.{Steps, Effect, step, process}
use txmpp.Tasks.Stops.{is_coherent}
use txmpp.Tasks.Tree.{stops_now}
use txmpp.Xml.Element.{XmlElement}
use txmpp.XmppTask.{
  XmppTask, stop_impl, drained, taken, next_stanza, queue_stanza, match_response_iq,
}
use txmpp.XmppTask.Lookups.{ends, SignalsOnce, start-SignalsOnce, response-SignalsOnce}
use txmpp.XmppTask.MucLookup.{
  MucRoomLookupTask, Signal, process_start, process_response, on_timeout,
}
use txmpp.XmppTask.MucLookup.Life.{
  steps_of, carried_out, lookup_process, LookupEvent, lookup_steps, stanza_comes, lookup_aborts,
  lookup_wakes, lookup_fails,
}

-- A lookup that is not done stands in one of its states.
abbrev pub is_waiting : ℕ → Bool
is_waiting state = state == state_init || state == state_start || state == state_response

abbrev pub is_fine : Steps → Bool
is_fine s = is_coherent s && (s.done || is_waiting s.state)

-- Error has been called, and the next step ends the task.
abbrev pub is_troubled : Steps → Bool
is_troubled s = not s.done && s.error

abbrev pub disturbs : LookupEvent → Bool
disturbs (lookup_steps timed_out sent) = false
disturbs (stanza_comes me stanza) = false
disturbs (lookup_aborts nowake) = true
disturbs lookup_wakes = false
disturbs lookup_fails = true

abbrev pub disturbed : List LookupEvent → Bool
disturbed [] = false
disturbed (v ∷ vs) = disturbs v || disturbed vs

-- What Process may return.
abbrev pub is_next : Option ℕ → Bool
is_next none = true
is_next (some s) = s == state_start || s == state_response || s == state_done || s == state_error

-- One step of the task without calls on itself.
pub step-going :
    (new_state : Option ℕ) (s : Steps)
    → is_fine s ≡ true
    → s.done ≡ false
    → s.error ≡ false
    → is_next new_state ≡ true
    → (is_fine (step [] new_state s).0 ≡ true)
      × ((step [] new_state s).0.done ≡ ends new_state)
      × (is_troubled (step [] new_state s).0 ≡ false)
unfolding step
step-going none s h d e n = ground arith
step-going (some q) s h d e n = ground arith

pub step-over :
    (s : Steps)
    → is_fine s ≡ true
    → (s.done || s.error) ≡ true
    → (is_fine (step [] none s).0 ≡ true) × ((step [] none s).0.done ≡ true)
unfolding step
step-over s h d = ground arith

-- StopImpl leaves the flags alone.
pub drained-steps : (q : List XmlElement) (t : XmppTask) → (drained q t).steps ≡ t.steps
drained-steps [] t = refl
drained-steps (x ∷ q) t = drained-steps q (taken (x ∷ q) t)

pub stop_impl-steps : (t : XmppTask) → (stop_impl t).0.steps ≡ t.steps
unfolding stop_impl
stop_impl-steps t = elim (Bool-cases t.has_client) [
  | inl e ↦ rw (stop_impl, e) (drained-steps t.stanza_queue (record t { has_client = true }))
  | inr e ↦ rw (stop_impl, e) (drained-steps t.stanza_queue (record t { has_client = false }))
]

pub carried_out-steps :
    (r : Steps × List Effect) (t : MucRoomLookupTask) → steps_of (carried_out r t) ≡ r.0
unfolding carried_out
carried_out-steps (s, effects) t = elim (Bool-cases (stops_now effects)) [
  | inl e ↦ rw (carried_out, e) (stop_impl-steps (record t.base { steps = s }))
  | inr e ↦ rw (carried_out, e) refl
]

-- What Process of a lookup returns and signals.
abbrev pub Handled : Option ℕ × List Signal → Type 0
Handled (state, signals) = (is_next state ≡ true) × SignalsOnce (state, signals)

pub start-next : (t : MucRoomLookupTask) (sent : Bool) → is_next (process_start t sent).0 ≡ true
unfolding process_start txmpp.XmppTask.send_to_client
start-next t sent = elim (Bool-cases t.base.has_client) [
  | inr e ↦ rw (process_start, txmpp.XmppTask.send_to_client, e) refl
  | inl e ↦ elim (Bool-cases sent) [
    | inl s ↦ rw (process_start, txmpp.XmppTask.send_to_client, e, s) refl
    | inr s ↦ rw (process_start, txmpp.XmppTask.send_to_client, e, s) refl
  ]
]

pub response-next :
    (tolower : ℕ → ℕ) (t : MucRoomLookupTask) (q : List XmlElement)
    → t.base.stanza_queue ≡ q
    → is_next (process_response tolower t).1 ≡ true
unfolding process_response next_stanza
response-next tolower t [] e = rw (process_response, next_stanza, e) refl
response-next tolower t (x ∷ q) e = rw (process_response, next_stanza, e) refl

pub lookup_process-Handled :
    (tolower : ℕ → ℕ) (timed_out sent : Bool) (t : MucRoomLookupTask)
    → is_waiting (steps_of t).state ≡ true
    → let (t', state, signals) = lookup_process tolower timed_out sent t in Handled (state, signals)
unfolding lookup_process on_timeout process
lookup_process-Handled tolower true sent t h = (refl, refl)
lookup_process-Handled tolower false sent t h =
    let state = (steps_of t).state in
    elim (Bool-cases (state == state_start)) [
      | inl e ↦ rw (lookup_process, e) (start-next t sent, start-SignalsOnce t sent)
      | inr e ↦ elim (Bool-cases (state == state_response)) [
        | inl e' ↦
            rw (lookup_process, e, e')
              (
                response-next tolower t t.base.stanza_queue refl,
                (response-SignalsOnce tolower t t.base.stanza_queue refl).0,
              )
        | inr e' ↦
            let first : state == state_init ≡ true = ground (arith, h, e, e') in
            rw (lookup_process, e, e', first) (refl, refl)
      ]
    ]

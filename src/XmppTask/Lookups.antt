-- ===== src/XmppTask/Lookups.antt =====
-- What the handlers of a room lookup signal (mucroomlookuptask.cc).
use txmpp.Common.{
  ℕ, Bool, false, ◌||◌, ◌≡◌, ◌⊎◌, refl, List, [], ◌∷◌, Option, none, some, length, inl, inr,
  Bool-cases, if◌then◌else◌, ◌==◌,
}
use txmpp.Tasks.{state_done, state_error}
use txmpp.XmppTask.{next_stanza, send_to_client}
use txmpp.Xml.Element.{XmlElement}
use txmpp.XmppTask.MucLookup

-- Whether a task that returns this state ends.
abbrev pub ends : Option ℕ → Bool
ends none = false
ends (some state) = state == state_done || state == state_error

-- A handler signals once where it ends the task, and not at all otherwise.
abbrev pub SignalsOnce : Option ℕ × List MucLookup.Signal → Type 0
SignalsOnce (state, signals) = length signals ≡ (if ends state then 1 else 0)

-- What a response handler does with the queue.
abbrev Reads : MucLookup.MucRoomLookupTask → Option ℕ → Type 0
Reads t state =
    ((t.base.stanza_queue ≡ []) × (state ≡ none))
    ⊎ ((x : XmlElement) × (q : List XmlElement) × (t.base.stanza_queue ≡ x ∷ q)
        × (state ≡ some state_done))

pub start-SignalsOnce :
    (t : MucLookup.MucRoomLookupTask) (sent : Bool) → SignalsOnce (MucLookup.process_start t sent)
unfolding MucLookup.process_start send_to_client
start-SignalsOnce t sent = elim (Bool-cases t.base.has_client) [
  | inr e ↦ rw (MucLookup.process_start, send_to_client, e) refl
  | inl e ↦ elim (Bool-cases sent) [
    | inl s ↦ rw (MucLookup.process_start, send_to_client, e, s) refl
    | inr s ↦ rw (MucLookup.process_start, send_to_client, e, s) refl
  ]
]

pub response-SignalsOnce :
    (tolower : ℕ → ℕ) (t : MucLookup.MucRoomLookupTask) (q : List XmlElement)
    → t.base.stanza_queue ≡ q
    → let (after, state, signals) = MucLookup.process_response tolower t in
      SignalsOnce (state, signals) × Reads t state
unfolding MucLookup.process_response next_stanza
response-SignalsOnce tolower t [] e =
    rw (MucLookup.process_response, next_stanza, e) (refl, inl (refl, refl))
response-SignalsOnce tolower t (x ∷ q) e =
    rw (MucLookup.process_response, next_stanza, e) (refl, inr (x, q, refl, refl))

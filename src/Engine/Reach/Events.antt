-- ===== src/Engine/Reach/Events.antt =====
-- The calls of the stanza parser and HandleInput (xmppengineimpl.cc) under the invariant.
use txmpp.Common.{
  ℕ, Bool, true, false, not, ◌&&◌, ◌||◌, ◌≡◌, refl, ap, ◌∙◌, List, [], ◌∷◌, Option, none, some,
  Bytes, arith, Bool-cases, inl, inr, if◌then◌else◌, beq, codes, ◌>>=◌,
}
use txmpp.Engine.Input.{
  ParseEvent, start_stream, stanza, end_stream, xml_error, deliver, refuse, or_deliver,
  incoming_start, incoming_stanza, incoming_end, handle_event, handle_events, handle_input,
  incoming_start_for, incoming_stanza_for,
}
use txmpp.Engine.Internal.{
  has_error, signal_error, signal_stream_error, call, enter, exit, internal_send_stanza, printed,
}
use txmpp.Engine.Iq.{
  StanzaError, feature_not_implemented, handle_iq_response, send_stanza_error, is_response,
  answered,
}
use txmpp.Engine.Iq.Errors.{error_element_lem}
use txmpp.Engine.Names.{qn_stream_error, qn_iq, qn_type}
use txmpp.Engine.Reach.Core.{core, core-exit, core-put, core-enter, core-deliver}
use txmpp.Engine.Reach.Live.{
  IsLive, live_opening, live_open, live_closed, IsLive-core, login_takes-IsLive, login_task-core,
}
use txmpp.Engine.Session.{send_stanza, send_or_queue}
use txmpp.Engine.Types.{
  Engine, Error, ReturnStatus, return_ok, return_badstate, IqEntry, is_error_none, is_closed,
  is_opening, is_open, error_xml, error_document_closed,
}
use txmpp.Xml.Element.{XmlElement, name, attr}
use txmpp.Xml.QName.{qname_eq}

signal_error-IsLive :
    (code : Error) (sub : ℕ) (e : Engine)
    → is_error_none code ≡ false
    → is_closed e.state ≡ false
    → IsLive (signal_error code sub e)
unfolding signal_error
signal_error-IsLive code sub e error going =
    rw going (live_closed refl (unfold has_error in ap not error))

signal_stream_error-IsLive :
    (x : XmlElement) (e : Engine) → is_closed e.state ≡ false → IsLive (signal_stream_error x e)
unfolding signal_stream_error signal_error
signal_stream_error-IsLive x e going = rw going (live_closed refl (unfold has_error in refl))

-- What may go on is not closed.
going :
    (e : Engine) → IsLive e → (has_error e || e.raised_reset) ≡ false → is_closed e.state ≡ false
going e (live_opening l at task no_error not_done ready) h = ap is_closed at
going e (live_open at task no_error) h = ap is_closed at
going e (live_closed at error) h = ground arith

incoming_start-IsLive :
    (tolower : ℕ → ℕ) (x : XmlElement) (e : Engine)
    → IsLive e
    → (e' : Engine) × (incoming_start tolower x e ≡ some e') × IsLive e'
unfolding incoming_start
incoming_start-IsLive tolower x e live = elim (Bool-cases (has_error e || e.raised_reset)) [
  | inl skipped ↦ (e, rw skipped refl, live)
  | inr on ↦ started live on
]
  where
    started :
        IsLive e
        → (has_error e || e.raised_reset) ≡ false
        → (e' : Engine) × (incoming_start tolower x e ≡ some e') × IsLive e'
    started (live_opening l at task no_error not_done ready) on =
        let (e', ran, live') =
          login_takes-IsLive tolower (some x) true l e at no_error not_done ready in
        (e', rw on (ap (λ t. incoming_start_for tolower x t e) task ∙ ran), live')
    started (live_open at task no_error) on = (
      signal_error error_xml 0 e,
      rw on (ap (λ t. incoming_start_for tolower x t e) task),
      signal_error-IsLive error_xml 0 e refl (ap is_closed at),
    )
    started (live_closed at error) on = ground arith

incoming_end-IsLive : (b : Bool) (e : Engine) → IsLive e → IsLive (incoming_end b e)
unfolding incoming_end
incoming_end-IsLive b e live = elim (Bool-cases (has_error e || e.raised_reset)) [
  | inl skipped ↦ rw skipped live
  | inr on ↦ rw on (ended b (going e live on))
]
  where
    ended :
        (b : Bool)
        → is_closed e.state ≡ false
        → IsLive (signal_error (if b then error_xml else error_document_closed) 0 e)
    ended true h = signal_error-IsLive error_xml 0 e refl h
    ended false h = signal_error-IsLive error_document_closed 0 e refl h

core-answered :
    (x : XmlElement) (e : Engine) (o : Option (IqEntry × List IqEntry))
    → core (answered x e o).1 ≡ core e
unfolding core call
core-answered x e none = refl
core-answered x e (some (i, rest)) = refl

pub core-handle_iq_response :
    (x : XmlElement) (e : Engine) → core (handle_iq_response x e).1 ≡ core e
unfolding handle_iq_response
core-handle_iq_response x e = elim (Bool-cases (is_response x)) [
  | inl response ↦ rw response (core-answered x e _)
  | inr other ↦ rw other refl
]

-- Past the login, a stanza is written out.
core-send_stanza :
    (x : XmlElement) (e : Engine) → e.login_task ≡ none → core (send_stanza x e).1 ≡ core e
unfolding send_stanza
core-send_stanza x e task = elim (Bool-cases (is_closed e.state)) [
  | inl shut ↦ rw shut refl
  | inr on ↦
      rw on (core-exit e.state _ ∙ ap (λ t. core (send_or_queue x t (enter e))) task ∙ written)
]
  where
    written : core (internal_send_stanza x (enter e)) ≡ core e
    written = unfold internal_send_stanza in core-put (printed x) (enter e) ∙ core-enter e

core-send_stanza_error :
    (x : XmlElement) (c : StanzaError) (t : Bytes) (e : Engine)
    → e.login_task ≡ none
    → (r : ReturnStatus × Engine) × (send_stanza_error x c t e ≡ some r) × (core r.1 ≡ core e)
unfolding send_stanza_error
core-send_stanza_error x c t e task = elim (Bool-cases (is_closed e.state)) [
  | inl shut ↦ ((return_badstate, e), rw shut refl, refl)
  | inr on ↦
      let (y, built, _, _, _, _) = error_element_lem x c t in
      ((return_ok, (send_stanza y e).1), rw (on, built) refl, core-send_stanza y e task)
]

core-refuse :
    (x : XmlElement) (r : Bool × Engine)
    → r.1.login_task ≡ none
    → (e' : Engine) × (refuse x r ≡ some e') × (core e' ≡ core r.1)
core-refuse x (true, e) task = (e, refl, refl)
core-refuse x (false, e) task =
    let refused =
      qname_eq (name x) qn_iq
      && not (beq (attr qn_type x) (codes "error") || beq (attr qn_type x) (codes "result")) in
    elim (Bool-cases refused) [
      | inl iq ↦
          let ((s, e'), sent, same) = core-send_stanza_error x feature_not_implemented [] e task in
          (e', rw iq (ap (λ o. o >>= λ r. some r.1) sent), same)
      | inr other ↦ (e, rw other refl, refl)
    ]

core-or_deliver :
    (handles : ℕ → XmlElement → Bool) (x : XmlElement) (r : Bool × Engine)
    → r.1.login_task ≡ none
    → (e' : Engine) × (or_deliver handles x r ≡ some e') × (core e' ≡ core r.1)
core-or_deliver handles x (true, e) task = (e, refl, refl)
core-or_deliver handles x (false, e) task =
    let delivered = core-deliver handles x e in
    let (e', ran, same) =
      core-refuse x (deliver handles x e)
        (login_task-core (deliver handles x e).1 e delivered ∙ task) in
    (e', ran, same ∙ delivered)

incoming_stanza-IsLive :
    (tolower : ℕ → ℕ) (handles : ℕ → XmlElement → Bool) (x : XmlElement) (e : Engine)
    → IsLive e
    → (e' : Engine) × (incoming_stanza tolower handles x e ≡ some e') × IsLive e'
unfolding incoming_stanza
incoming_stanza-IsLive tolower handles x e live =
    elim (Bool-cases (has_error e || e.raised_reset)) [
      | inl skipped ↦ (e, rw skipped refl, live)
      | inr on ↦ elim (Bool-cases (qname_eq (name x) qn_stream_error)) [
        | inl stream_error ↦ (
          signal_stream_error x e,
          rw (on, stream_error) refl,
          signal_stream_error-IsLive x e (going e live on),
        )
        | inr other ↦ let (e', ran, live') = taken live on in (e', rw (on, other) ran, live')
      ]
    ]
  where
    taken :
        IsLive e
        → (has_error e || e.raised_reset) ≡ false
        → (e' : Engine) × (incoming_stanza_for tolower handles x e.login_task e ≡ some e')
          × IsLive e'
    taken (live_opening l at task no_error not_done ready) on =
        let (e', ran, live') =
          login_takes-IsLive tolower (some x) false l e at no_error not_done ready in
        (e', ap (λ t. incoming_stanza_for tolower handles x t e) task ∙ ran, live')
    taken (live_open at task no_error) on =
        let answer = core-handle_iq_response x e in
        let (e', ran, same) =
          core-or_deliver handles x (handle_iq_response x e)
            (login_task-core (handle_iq_response x e).1 e answer ∙ task) in
        (
          e',
          ap (λ t. incoming_stanza_for tolower handles x t e) task ∙ ran,
          IsLive-core e' e (same ∙ answer) (live_open at task no_error),
        )
    taken (live_closed at error) on = ground arith

handle_event-IsLive :
    (tolower : ℕ → ℕ) (handles : ℕ → XmlElement → Bool) (v : ParseEvent) (e : Engine)
    → IsLive e
    → (e' : Engine) × (handle_event tolower handles v e ≡ some e') × IsLive e'
unfolding handle_event
handle_event-IsLive tolower handles (start_stream x) e live = incoming_start-IsLive tolower x e live
handle_event-IsLive tolower handles (stanza x) e live =
    incoming_stanza-IsLive tolower handles x e live
handle_event-IsLive tolower handles end_stream e live =
    (incoming_end false e, refl, incoming_end-IsLive false e live)
handle_event-IsLive tolower handles xml_error e live =
    (incoming_end true e, refl, incoming_end-IsLive true e live)

pub handle_events-IsLive :
    (tolower : ℕ → ℕ) (handles : ℕ → XmlElement → Bool) (vs : List ParseEvent) (e : Engine)
    → IsLive e
    → (e' : Engine) × (handle_events tolower handles vs e ≡ some e') × IsLive e'
unfolding handle_events
handle_events-IsLive tolower handles [] e live = (e, refl, live)
handle_events-IsLive tolower handles (v ∷ vs) e live =
    let (e1, ran1, live1) = handle_event-IsLive tolower handles v e live in
    let (e2, ran2, live2) = handle_events-IsLive tolower handles vs e1 live1 in
    (e2, rw ran1 ran2, live2)

-- Input from the server never breaks a live engine. Whatever the parser reports and whatever the
-- stanza handlers answer, HandleInput comes to its end without reading a null pointer and leaves
-- a live engine: opening with a login task that can go on, open with none, or closed by an error.
pub handle_input-IsLive :
    (tolower : ℕ → ℕ) (handles : ℕ → XmlElement → Bool) (vs : List ParseEvent) (e : Engine)
    → IsLive e
    → (s : ReturnStatus) × (e' : Engine) × (handle_input tolower handles vs e ≡ some (s, e'))
      × IsLive e'
unfolding handle_input
handle_input-IsLive tolower handles vs e live =
    elim (Bool-cases (is_opening e.state || is_open e.state)) [
      | inl on ↦
          let (e', ran, live') =
            handle_events-IsLive tolower handles vs (enter e)
              (IsLive-core (enter e) e (core-enter e) live) in
          (
            return_ok,
            exit e.state e',
            rw (on, ran) refl,
            IsLive-core (exit e.state e') e' (core-exit e.state e') live',
          )
      | inr off ↦ (return_badstate, e, rw off refl, live)
    ]

-- ===== src/Engine/Login/Safety.antt =====
-- Runs of the login task (xmpplogintask.cc): the pointers it reads, the place of TLS, and its ends.
use txmpp.Common.{
  ℕ, Bool, true, false, not, ◌&&◌, ◌||◌, ◌≡◌, refl, ◌⊎◌, inl, inr, Option, none, some, Bool-cases,
  arith, ap,
}
use txmpp.Engine.Internal.{
  put, raise_reset, internal_send_start, internal_send_stanza, next_id, signal_bound, signal_error,
  start_tls, call, has_error,
}
use txmpp.Engine.Login.{
  Outcome, return, step_in, step_init, step_streamstart_sent, step_started_xmpp, step_tls_init,
  step_tls_requested, step_auth_init, step_sasl_running, step_bind_init, step_bind_requested,
  step_session_requested, advance, rounds, failure, login_incoming,
}
use txmpp.Engine.Login.Flush.{send_all_lem}
use txmpp.Engine.Login.Rounds.{keeps, advance-settles, settles-returned}
use txmpp.Engine.Types.{
  Engine, LoginTask, LoginState, login_init, streamstart_sent, started_xmpp, tls_init, auth_init,
  bind_init, tls_requested, sasl_running, bind_requested, session_requested, login_done, is_done,
  is_opening, is_open, is_closed,
}
use txmpp.Xml.Element.{XmlElement, is_some}

abbrev pub wants_features : LoginState → Bool
wants_features tls_init = true
wants_features auth_init = true
wants_features bind_init = true
wants_features _ = false

abbrev pub wants_mechanism : LoginState → Bool
wants_mechanism sasl_running = true
wants_mechanism _ = false

-- The pointers that the state will read are there.
abbrev pub is_ready : Engine → LoginTask → Bool
is_ready e l =
    is_some e.sasl_handler
    && (not (wants_features l.state) || is_some l.features)
    && (not (wants_mechanism l.state) || is_some l.sasl_mech)

-- The states in which nothing secret has been sent.
abbrev pub before_tls : LoginState → Bool
before_tls login_init = true
before_tls streamstart_sent = true
before_tls started_xmpp = true
before_tls tls_init = true
before_tls tls_requested = true
before_tls login_done = true
before_tls _ = false

-- TLS was asked for and the task has not come past it, or the stream is encrypted.
abbrev pub is_secured : Engine → LoginTask → Bool
is_secured e l = e.output_handler && ((e.tls_needed && before_tls l.state) || e.encrypted)

-- Under way, or done with an open engine, or done with a closed one that has an error.
abbrev pub is_settled : Engine → LoginTask → Bool
is_settled e l =
    (is_opening e.state && not (is_done l) && not (has_error e))
    || (is_open e.state && is_done l && not (has_error e))
    || (is_closed e.state && is_done l && has_error e)

abbrev is_secured_too : Engine → LoginTask → Bool
is_secured_too e l = is_ready e l && is_secured e l

abbrev is_settled_too : Engine → LoginTask → Bool
is_settled_too e l = is_ready e l && is_settled e l

module _ (tolower : ℕ → ℕ) (e : Engine) (l : LoginTask) where
  keeps-is_ready :
      (s : LoginState)
      → l.state ≡ s
      → is_ready e l ≡ true
      → keeps is_ready (step_in tolower s e l) ≡ true
  unfolding step_in step_init step_streamstart_sent step_started_xmpp step_tls_init
      step_tls_requested step_auth_init step_sasl_running step_bind_init step_bind_requested
      step_session_requested failure put raise_reset internal_send_start internal_send_stanza
      next_id signal_bound signal_error start_tls call has_error
  keeps-is_ready login_init at given = ground arith
  keeps-is_ready streamstart_sent at given = ground arith
  keeps-is_ready started_xmpp at given = ground arith
  keeps-is_ready tls_init at given = ground arith
  keeps-is_ready tls_requested at given = ground arith
  keeps-is_ready auth_init at given = ground arith
  keeps-is_ready sasl_running at given = ground arith
  keeps-is_ready bind_init at given = ground arith
  keeps-is_ready bind_requested at given = ground arith
  keeps-is_ready session_requested at given =
      let sent = send_all_lem l.queued (signal_bound l.full_jid e) in ground (arith, sent)
  keeps-is_ready login_done at given = ground arith

  keeps-is_secured :
      (s : LoginState)
      → l.state ≡ s
      → is_secured_too e l ≡ true
      → keeps is_secured_too (step_in tolower s e l) ≡ true
  unfolding step_in step_init step_streamstart_sent step_started_xmpp step_tls_init
      step_tls_requested step_auth_init step_sasl_running step_bind_init step_bind_requested
      step_session_requested failure put raise_reset internal_send_start internal_send_stanza
      next_id signal_bound signal_error start_tls call has_error
  keeps-is_secured login_init at given = ground arith
  keeps-is_secured streamstart_sent at given = ground arith
  keeps-is_secured started_xmpp at given = ground arith
  keeps-is_secured tls_init at given = ground arith
  keeps-is_secured tls_requested at given = ground arith
  keeps-is_secured auth_init at given = ground arith
  keeps-is_secured sasl_running at given = ground arith
  keeps-is_secured bind_init at given = ground arith
  keeps-is_secured bind_requested at given = ground arith
  keeps-is_secured session_requested at given =
      let sent = send_all_lem l.queued (signal_bound l.full_jid e) in ground (arith, sent)
  keeps-is_secured login_done at given = ground arith

  keeps-is_settled :
      (s : LoginState)
      → l.state ≡ s
      → is_settled_too e l ≡ true
      → keeps is_settled_too (step_in tolower s e l) ≡ true
  unfolding step_in step_init step_streamstart_sent step_started_xmpp step_tls_init
      step_tls_requested step_auth_init step_sasl_running step_bind_init step_bind_requested
      step_session_requested failure put raise_reset internal_send_start internal_send_stanza
      next_id signal_bound signal_error start_tls call has_error
  keeps-is_settled login_init at given = ground arith
  keeps-is_settled streamstart_sent at given = ground arith
  keeps-is_settled started_xmpp at given = ground arith
  keeps-is_settled tls_init at given = ground arith
  keeps-is_settled tls_requested at given = ground arith
  keeps-is_settled auth_init at given = ground arith
  keeps-is_settled sasl_running at given = ground arith
  keeps-is_settled bind_init at given = ground arith
  keeps-is_settled bind_requested at given = ground arith
  keeps-is_settled session_requested at given =
      let sent = send_all_lem l.queued (signal_bound l.full_jid e) in ground (arith, sent)
  keeps-is_settled login_done at given = ground arith

both : (a b : Bool) → a ≡ true → b ≡ true → (a && b) ≡ true
both a b h k = ground arith

first : (a b : Bool) → (a && b) ≡ true → a ≡ true
first a b h = ground arith

second : (a b : Bool) → (a && b) ≡ true → b ≡ true
second a b h = ground arith

-- The result of IncomingStanza, where a test holds that every round keeps.
module _ (tolower : ℕ → ℕ) (x : Option XmlElement) (is_start : Bool) (e : Engine)
    (l : LoginTask) where
  abbrev given_stanza : LoginTask
  given_stanza = record l { stanza = x; is_start = is_start }

  abbrev finish : Option Outcome → Option (Engine × LoginTask)
  finish (some (return b e' l')) = some (e', record l' { stanza = none; is_start = false })
  finish _ = none

  incoming_settles :
      (t : Engine → LoginTask → Bool)
      → ((e : Engine) (l : LoginTask) → t e l ≡ true → keeps t (step_in tolower l.state e l) ≡ true)
      → t e given_stanza ≡ true
      → (e' : Engine) × (l' : LoginTask) × (login_incoming tolower x is_start e l
          ≡ some (e', record l' { stanza = none; is_start = false }))
        × (t e' l' ≡ true)
  unfolding login_incoming
  incoming_settles t step given =
      let (b, e', l', ran, held) =
        settles-returned t (advance tolower rounds e given_stanza)
          (advance-settles tolower t step e given_stanza given) in
      (e', l', ap finish ran, held)

-- A task whose SASL handler, and whose features or mechanism where its state will read them, are
-- there takes any stanza, a null one too: Advance returns within its rounds, reads no null
-- pointer, and leaves the task ready for the next stanza, with none waiting.
pub login_incoming_total :
    (tolower : ℕ → ℕ) (x : Option XmlElement) (is_start : Bool) (e : Engine) (l : LoginTask)
    → is_ready e l ≡ true
    → (e' : Engine) × (l' : LoginTask) × (login_incoming tolower x is_start e l ≡ some (e', l'))
      × (is_ready e' l' ≡ true)
      × (l'.stanza ≡ none)
login_incoming_total tolower x is_start e l given =
    let (e', l', ran, held) =
      incoming_settles tolower x is_start e l is_ready
        (λ e l. keeps-is_ready tolower e l l.state refl) given in
    (e', record l' { stanza = none; is_start = false }, ran, held, refl)

secured_or :
    (e : Engine) (l : LoginTask)
    → is_secured e l ≡ true
    → (before_tls l.state ≡ true) ⊎ (e.encrypted ≡ true)
secured_or e l h = elim (Bool-cases e.encrypted) [ inl on ↦ inr on | inr off ↦ inl (ground arith) ]

-- TLS comes first. Let the task be ready, have an output handler, and either be encrypted or ask
-- for TLS and not be past it. After any stanza that is still so; in particular a task that then
-- waits on SASL, on the binding or on the session is encrypted.
pub login_incoming_secured :
    (tolower : ℕ → ℕ) (x : Option XmlElement) (is_start : Bool) (e : Engine) (l : LoginTask)
    → is_ready e l ≡ true
    → is_secured e l ≡ true
    → (e' : Engine) × (l' : LoginTask) × (login_incoming tolower x is_start e l ≡ some (e', l'))
      × (is_secured e' l' ≡ true)
      × ((before_tls l'.state ≡ true) ⊎ (e'.encrypted ≡ true))
login_incoming_secured tolower x is_start e l ready given =
    let (e', l', ran, held) =
      incoming_settles tolower x is_start e l is_secured_too
        (λ e l. keeps-is_secured tolower e l l.state refl)
        (both (is_ready e l) (is_secured e l) ready given) in
    let secured : is_secured e' l' ≡ true = second (is_ready e' l') (is_secured e' l') held in
    (e', record l' { stanza = none; is_start = false }, ran, secured, secured_or e' l' secured)

-- The handshake of an opening engine ends in two ways only. Let the task be ready and one of the
-- following hold; then the task is ready, and one of them holds, after any stanza: the engine is opening, without error,
-- and the task not done; it is open, without error, and the task done; it is closed, with an
-- error, and the task done.
pub login_incoming_settled :
    (tolower : ℕ → ℕ) (x : Option XmlElement) (is_start : Bool) (e : Engine) (l : LoginTask)
    → is_ready e l ≡ true
    → is_settled e l ≡ true
    → (e' : Engine) × (l' : LoginTask) × (login_incoming tolower x is_start e l ≡ some (e', l'))
      × (is_ready e' l' ≡ true)
      × (is_settled e' l' ≡ true)
login_incoming_settled tolower x is_start e l ready given =
    let (e', l', ran, held) =
      incoming_settles tolower x is_start e l is_settled_too
        (λ e l. keeps-is_settled tolower e l l.state refl)
        (both (is_ready e l) (is_settled e l) ready given) in
    (
      e',
      record l' { stanza = none; is_start = false },
      ran,
      first (is_ready e' l') (is_settled e' l') held,
      second (is_ready e' l') (is_settled e' l') held,
    )

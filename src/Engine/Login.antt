-- ===== src/Engine/Login.antt =====
-- XmppLoginTask (xmpplogintask.cc): the handshake. One round of the loop of Advance is a step; a
-- step that would read through a null pointer (the features, the SASL handler or mechanism) is a
-- fault.
pub mod Rounds
pub mod Flush
pub mod Safety
use txmpp.Common.{
  ℕ, zero, suc, Bool, true, false, not, ◌&&◌, ◌||◌, List, [], ◌∷◌, ◌++◌, Option, none, some, Bytes,
  codes, is_empty, beq, if◌then◌else◌,
}
use txmpp.Engine.Internal.{
  raise_reset, internal_send_start, internal_send_stanza, next_id, signal_bound, signal_error,
  start_tls,
}
use txmpp.Engine.Names.{
  ns_sasl, qn_stream_stream, qn_stream_features, qn_tls_starttls, qn_tls_proceed,
  qn_sasl_mechanisms, qn_sasl_mechanism, qn_sasl_challenge, qn_sasl_success, qn_bind_bind,
  qn_bind_resource, qn_bind_jid, qn_session_session, qn_iq, qn_version, qn_type, qn_id,
}
use txmpp.Engine.Types.{
  Engine, LoginTask, LoginState, login_init, streamstart_sent, started_xmpp, tls_init, auth_init,
  bind_init, tls_requested, sasl_running, bind_requested, session_requested, login_done, Error,
  error_version, error_tls, error_auth, error_unauthorized, error_bind, SaslHandler, SaslMechanism,
}
use txmpp.Jid.{Jid, JidData, parse, is_full}
use txmpp.Xml.Element.{
  XmlElement, Children, end, text, child, name, children, attr, has_attr, first_named,
  first_element, text_named, body_text, new_element, new_element_ns, add_attr, add_element,
  add_text, is_some,
}
use txmpp.Xml.QName.{QName, qname_eq, qn_xmlns}

pub data Outcome : Type 0 where
  again : Engine → LoginTask → Outcome
  return : Bool → Engine → LoginTask → Outcome
  fault : Outcome

-- Jid::domain
abbrev pub domain_name_of : Jid → Bytes
domain_name_of none = []
domain_name_of (some d) = d.domain_name

-- NextStanza, and the return that follows where there is none.
abbrev pub next_stanza :
    Engine → LoginTask → Option XmlElement → (XmlElement → LoginTask → Outcome) → Outcome
next_stanza e l none k = return true e l
next_stanza e l (some x) k = k x (record l { stanza = none })

unfoldable pub failure : Error → Engine → LoginTask → Outcome
failure reason e l = return false (signal_error reason 0 e) (record l { state = login_done })

-- GetFeature, and what is done with it.
abbrev pub get_feature :
    QName → LoginTask → Option XmlElement → (Option XmlElement → Outcome) → Outcome
get_feature q l none k = fault
get_feature q l (some f) k = k (first_named q f)

-- The test of HandleStartStream.
unfoldable pub is_start_stream : XmlElement → Bool
is_start_stream x =
    qname_eq (name x) qn_stream_stream
    && beq (attr qn_xmlns x) (codes "jabber:client")
    && beq (attr qn_version x) (codes "1.0")
    && has_attr qn_id x

abbrev go : LoginState → LoginTask → LoginTask
go s l = record l { state = s }

unfoldable pub step_init : Engine → LoginTask → Outcome
step_init e l =
    again (internal_send_start (domain_name_of e.user_jid) (raise_reset e))
      (record l { features = none; state = streamstart_sent })

unfoldable pub step_streamstart_sent : Engine → LoginTask → Outcome
unfolding failure
step_streamstart_sent e l = next_stanza e l l.stanza λ x l1.
    if not l1.is_start || not (is_start_stream x)
    then failure error_version e l1
    else return true e (record l1 { stream_id = attr qn_id x; state = started_xmpp })

unfoldable pub step_started_xmpp : Engine → LoginTask → Outcome
unfolding failure
step_started_xmpp e l = next_stanza e l l.stanza λ x l1.
    if not (qname_eq (name x) qn_stream_features)
    then failure error_version e l1
    else let l2 = record l1 { features = some x } in
      if e.tls_needed || is_some (first_named qn_tls_starttls x)
      then again e (go tls_init l2)
      else if l2.auth_needed
      then again e (go auth_init l2)
      else again e (go bind_init l2)

abbrev request_tls : Engine → LoginTask → Option XmlElement → Outcome
request_tls e l none = failure error_tls e l
request_tls e l (some _) =
    again (internal_send_stanza (new_element_ns qn_tls_starttls true) e) (go tls_requested l)

unfoldable pub step_tls_init : Engine → LoginTask → Outcome
unfolding failure
step_tls_init e l = get_feature qn_tls_starttls l l.features (request_tls e l)

unfoldable pub step_tls_requested : Engine → LoginTask → Outcome
unfolding failure
step_tls_requested e l = next_stanza e l l.stanza λ x l1.
    if not (qname_eq (name x) qn_tls_proceed)
    then failure error_tls e l1
    else again (record (start_tls (domain_name_of e.user_jid) e) { tls_needed = false })
        (go login_init l1)

-- The loop by FirstNamed and NextNamed.
unfoldable pub mechanism_names : Children → List Bytes
mechanism_names end = []
mechanism_names (text t cs) = mechanism_names cs
mechanism_names (child x cs) =
    let rest = mechanism_names cs in
    if qname_eq (name x) qn_sasl_mechanism then body_text x ∷ rest else rest

abbrev start_mechanism : Engine → LoginTask → Option SaslMechanism → Outcome
start_mechanism e l none = failure error_auth e (record l { sasl_mech = none })
start_mechanism e l (some m) = elim m.start_sasl_auth [
  | none ↦ failure error_auth e (record l { sasl_mech = some m })
  | some auth ↦
      again (internal_send_stanza auth e) (record l { sasl_mech = some m; state = sasl_running })
]

abbrev choose_mechanism : Engine → LoginTask → XmlElement → Option SaslHandler → Outcome
choose_mechanism e l offer none = fault
choose_mechanism e l offer (some h) =
    let choice = h.choose_best_sasl_mechanism (mechanism_names (children offer)) e.encrypted in
    if is_empty choice
    then failure error_auth e l
    else start_mechanism e l (h.create_sasl_mechanism choice)

abbrev authenticate : Engine → LoginTask → Option XmlElement → Outcome
authenticate e l none = failure error_auth e l
authenticate e l (some offer) = choose_mechanism e l offer e.sasl_handler

unfoldable pub step_auth_init : Engine → LoginTask → Outcome
unfolding failure mechanism_names
step_auth_init e l = get_feature qn_sasl_mechanisms l l.features (authenticate e l)

abbrev answer : Engine → LoginTask → Option XmlElement → Outcome
answer e l none = failure error_auth e l
answer e l (some response) = again (internal_send_stanza response e) (go sasl_running l)

abbrev challenged : Engine → LoginTask → XmlElement → Option SaslMechanism → Outcome
challenged e l x none = fault
challenged e l x (some m) = answer e l (m.handle_sasl_challenge x)

unfoldable pub step_sasl_running : Engine → LoginTask → Outcome
unfolding failure
step_sasl_running e l = next_stanza e l l.stanza λ x l1.
    if not (beq (name x).namespace ns_sasl)
    then failure error_auth e l1
    else if qname_eq (name x) qn_sasl_challenge
    then challenged e l1 x l1.sasl_mech
    else if not (qname_eq (name x) qn_sasl_success)
    then failure error_unauthorized e l1
    else again e (record l1 { auth_needed = false; state = login_init })

-- The iq of LOGINSTATE_BIND_INIT. Its text and resource element go one and two levels down.
unfoldable pub bind_iq : Bytes → Bytes → XmlElement
bind_iq id resource =
    let iq = add_attr qn_id id (add_attr qn_type (codes "set") (new_element qn_iq)) in
    let bind = new_element_ns qn_bind_bind true in
    if is_empty resource
    then add_element bind iq
    else add_element (add_element (add_text resource (new_element qn_bind_resource)) bind) iq

unfoldable pub session_iq : Bytes → XmlElement
session_iq id =
    add_element (new_element_ns qn_session_session true)
      (add_attr qn_id id (add_attr qn_type (codes "set") (new_element qn_iq)))

abbrev request_bind : Engine → LoginTask → Option XmlElement → Option XmlElement → Outcome
request_bind e l (some _) (some _) =
    again (internal_send_stanza (bind_iq (next_id e).0 e.requested_resource) (next_id e).1)
      (record l { iq_id = (next_id e).0; state = bind_requested })
request_bind e l _ _ = failure error_bind e l

unfoldable pub step_bind_init : Engine → LoginTask → Outcome
unfolding failure
step_bind_init e l =
    get_feature qn_bind_bind l l.features
      λ bind. get_feature qn_session_session l l.features λ session. request_bind e l bind session

-- Not the answer to the request that carries the id `id`.
unfoldable pub is_other_iq : Bytes → XmlElement → Bool
is_other_iq id x =
    not (qname_eq (name x) qn_iq)
    || not (beq (attr qn_id x) id)
    || beq (attr qn_type x) (codes "get")
    || beq (attr qn_type x) (codes "set")

abbrev is_result : XmlElement → Bool
is_result x = beq (attr qn_type x) (codes "result")

abbrev bound_to : (ℕ → ℕ) → Engine → LoginTask → Option XmlElement → Outcome
bound_to tolower e l none = failure error_bind e l
bound_to tolower e l (some bind) =
    if not (qname_eq (name bind) qn_bind_bind)
    then failure error_bind e l
    else let full = parse tolower (text_named qn_bind_jid bind) in
      let l1 = record l { full_jid = full } in
      if not (is_full full)
      then failure error_bind e l1
      else again (internal_send_stanza (session_iq (next_id e).0) (next_id e).1)
          (record l1 { iq_id = (next_id e).0; state = session_requested })

unfoldable pub step_bind_requested : (ℕ → ℕ) → Engine → LoginTask → Outcome
unfolding failure
step_bind_requested tolower e l = next_stanza e l l.stanza λ x l1.
    if is_other_iq l1.iq_id x
    then return true e l1
    else if not (is_result x)
    then failure error_bind e l1
    else bound_to tolower e l1 (first_element x)

-- FlushQueuedStanzas
unfoldable pub send_all : List XmlElement → Engine → Engine
send_all [] e = e
send_all (x ∷ xs) e = send_all xs (internal_send_stanza x e)

unfoldable pub step_session_requested : Engine → LoginTask → Outcome
unfolding failure send_all
step_session_requested e l = next_stanza e l l.stanza λ x l1.
    if is_other_iq l1.iq_id x
    then return false e l1
    else if not (is_result x)
    then failure error_bind e l1
    else return true (send_all l1.queued (signal_bound l1.full_jid e))
        (record l1 { queued = []; state = login_done })

-- The switch of Advance.
unfoldable pub step_in : (ℕ → ℕ) → LoginState → Engine → LoginTask → Outcome
step_in tolower login_init e l = step_init e l
step_in tolower streamstart_sent e l = step_streamstart_sent e l
step_in tolower started_xmpp e l = step_started_xmpp e l
step_in tolower tls_init e l = step_tls_init e l
step_in tolower tls_requested e l = step_tls_requested e l
step_in tolower auth_init e l = step_auth_init e l
step_in tolower sasl_running e l = step_sasl_running e l
step_in tolower bind_init e l = step_bind_init e l
step_in tolower bind_requested e l = step_bind_requested tolower e l
step_in tolower session_requested e l = step_session_requested e l
step_in tolower login_done e l = return false e l

-- The loop of Advance, on fuel: none is the end of the fuel.
unfoldable pub advance : (ℕ → ℕ) → ℕ → Engine → LoginTask → Option Outcome
advance tolower zero e l = none
advance tolower (suc fuel) e l = elim (step_in tolower l.state e l) [
  | again e' l' ↦ advance tolower fuel e' l'
  | return b e' l' ↦ some (return b e' l')
  | fault ↦ some fault
]

-- XmppLoginTask::OutgoingStanza
unfoldable pub outgoing_stanza : XmlElement → LoginTask → LoginTask
outgoing_stanza x l = record l { queued = l.queued ++ x ∷ [] }

-- The rounds that the loop is given in one call (Engine/Login/Rounds).
abbrev pub rounds : ℕ
rounds = 4

-- XmppLoginTask::IncomingStanza; none is a fault.
unfoldable pub login_incoming :
    (ℕ → ℕ) → Option XmlElement → Bool → Engine → LoginTask → Option (Engine × LoginTask)
unfolding advance
login_incoming tolower x is_start e l =
    elim (advance tolower rounds e (record l { stanza = x; is_start = is_start })) [
      | some (return b e' l') ↦ some (e', record l' { stanza = none; is_start = false })
      | _ ↦ none
    ]

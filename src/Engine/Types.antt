-- ===== src/Engine/Types.antt =====
-- The data of XmppEngineImpl and XmppLoginTask (xmppengine.h, xmppengineimpl.h, xmpplogintask.h,
-- saslhandler.h). Handlers and cookies are pointers in the source and numbers here; a registered
-- output or session handler is a flag, and the calls made on any of them are the list `calls`, in
-- order. Callbacks do not call back into the engine. Counters do not wrap.
use txmpp.Common.{ℕ, Bool, true, false, List, [], Option, none, some, Bytes}
use txmpp.Jid.{Jid, jid_empty}
use txmpp.Xml.Element.{XmlElement}

-- XmppEngine::State, without the value for "nonexistent", which no code assigns.
pub data State : Type 0 where
  start opening opened closed : State

-- XmppEngine::Error
pub data Error : Type 0 where
  error_none error_xml error_stream error_version error_unauthorized error_tls error_auth : Error
  error_bind error_connection_closed error_document_closed error_socket : Error

pub data ReturnStatus : Type 0 where
  return_ok return_badargument return_badstate : ReturnStatus

-- XmppLoginTask::LoginTaskState
pub data LoginState : Type 0 where
  login_init streamstart_sent started_xmpp tls_init auth_init bind_init tls_requested : LoginState
  sasl_running bind_requested session_requested login_done : LoginState

-- The virtual methods of SaslMechanism and SaslHandler; none is a null result.
pub record SaslMechanism : Type 0 where
  pub start_sasl_auth : Option XmlElement
  pub handle_sasl_challenge : XmlElement → Option XmlElement

pub record SaslHandler : Type 0 where
  pub choose_best_sasl_mechanism : List Bytes → Bool → Bytes
  pub create_sasl_mechanism : Bytes → Option SaslMechanism

pub record LoginTask : Type 0 where
  pub auth_needed : Bool
  pub state : LoginState
  pub stanza : Option XmlElement
  pub is_start : Bool
  pub iq_id : Bytes
  pub features : Option XmlElement
  pub full_jid : Jid
  pub stream_id : Bytes
  pub queued : List XmlElement
  pub sasl_mech : Option SaslMechanism

-- XmppIqEntry; the cookie is the entry's address.
pub record IqEntry : Type 0 where
  pub cookie : ℕ
  pub id : Bytes
  pub to : Bytes
  pub handler : ℕ

-- XmppEngine::HandlerLevel; unlisted is HL_NONE, whose handlers are never called.
pub data Level : Type 0 where
  unlisted peek single sender type' all : Level

-- A call that the engine makes on one of its handlers.
pub data Call : Type 0 where
  write_output : Bytes → Call
  call_start_tls : Bytes → Call
  close_connection : Call
  on_state_change : State → Call
  handle_stanza : ℕ → XmlElement → Call
  iq_response : ℕ → ℕ → XmlElement → Call

pub record Engine : Type 0 where
  pub engine_entered : ℕ
  pub user_jid : Jid
  pub requested_resource : Bytes
  pub tls_needed : Bool
  pub tls_server_hostname : Bytes
  pub tls_server_domain : Bytes
  pub lang : Bytes
  pub login_task : Option LoginTask
  pub next_id : ℕ
  pub bound_jid : Jid
  pub state : State
  pub encrypted : Bool
  pub error_code : Error
  pub subcode : ℕ
  pub stream_error : Option XmlElement
  pub raised_reset : Bool
  pub output_handler : Bool
  pub session_handler : Bool
  pub stanza_handlers : Level → List ℕ
  pub iq_entries : List IqEntry
  pub next_cookie : ℕ
  pub sasl_handler : Option SaslHandler
  pub output : Bytes
  pub calls : List Call

-- The constructors of XmppLoginTask and XmppEngineImpl.
abbrev pub new_login_task : LoginTask
new_login_task = record {
  auth_needed = true;
  state = login_init;
  stanza = none;
  is_start = false;
  iq_id = [];
  features = none;
  full_jid = jid_empty;
  stream_id = [];
  queued = [];
  sasl_mech = none;
}

abbrev pub new_engine : Engine
new_engine = record {
  engine_entered = 0;
  user_jid = jid_empty;
  requested_resource = [];
  tls_needed = true;
  tls_server_hostname = [];
  tls_server_domain = [];
  lang = [];
  login_task = some new_login_task;
  next_id = 0;
  bound_jid = jid_empty;
  state = start;
  encrypted = false;
  error_code = error_none;
  subcode = 0;
  stream_error = none;
  raised_reset = false;
  output_handler = false;
  session_handler = false;
  stanza_handlers = λ level. [];
  iq_entries = [];
  next_cookie = 0;
  sasl_handler = none;
  output = [];
  calls = [];
}

-- Tests on the enumerations.
abbrev pub is_closed : State → Bool
is_closed closed = true
is_closed _ = false

abbrev pub is_start_state : State → Bool
is_start_state start = true
is_start_state _ = false

abbrev pub is_open : State → Bool
is_open opened = true
is_open _ = false

abbrev pub is_opening : State → Bool
is_opening opening = true
is_opening _ = false

abbrev pub same_state : State → State → Bool
same_state start start = true
same_state opening opening = true
same_state opened opened = true
same_state closed closed = true
same_state _ _ = false

abbrev pub is_error_none : Error → Bool
is_error_none error_none = true
is_error_none _ = false

abbrev pub is_login_done : LoginState → Bool
is_login_done login_done = true
is_login_done _ = false

-- IsDone
abbrev pub is_done : LoginTask → Bool
is_done l = is_login_done l.state

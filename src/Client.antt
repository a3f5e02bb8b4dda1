-- ===== src/Client.antt =====
-- XmppClient (xmppclient.h, xmppclient.cc): a task that drives an engine and a socket. The socket
-- and the authentication helper are outside: the first is given by whether it is there and by what
-- its methods answer, the second by a record of what its methods answer. What the client calls on
-- them and signals is a list. none is a null engine or a null socket that the code would read.
pub mod Serves
pub mod Signals
use txmpp.Common.{
  ℕ, ◌+◌, Bool, true, false, not, ◌&&◌, ◌||◌, List, [], ◌∷◌, ◌++◌, Option, none, some, Bytes, codes,
  beq, is_empty, length, drop, if◌then◌else◌, ◌>>=◌,
}
use txmpp.Engine.Session.{
  set_output_handler, set_session_handler, set_use_tls, set_tls_server, set_user, set_sasl_handler,
  set_requested_resource, disconnect,
}
use txmpp.Engine.Types.{
  Engine, new_engine, State, closed, Error, error_none, error_auth, error_unauthorized,
  ReturnStatus, return_ok, return_badargument, return_badstate, SaslHandler, Call, write_output,
  call_start_tls, close_connection, on_state_change, handle_stanza, iq_response, is_closed,
  is_error_none,
}
use txmpp.Jid.{Jid}
use txmpp.Sasl.{plain_sasl_handler}
use txmpp.Tasks.{state_done, state_error, state_response}
use txmpp.Tasks.Steps.{Steps, wake}
use txmpp.Xml.Element.{XmlElement}

abbrev pub state_pre_xmpp_login : ℕ
state_pre_xmpp_login = 5

abbrev pub state_start_xmpp_login : ℕ
state_start_xmpp_login = 6

-- CaptchaChallenge, where one is needed: token and url.
abbrev pub Captcha : Type 0
Captcha = Option (Bytes × Bytes)

-- PreXmppAuth, by what its methods answer.
pub record PreAuth : Type 0 where
  pub is_auth_done : Bool
  pub is_authorized : Bool
  pub had_error : Bool
  pub get_error : ℕ
  pub captcha : Captcha
  pub auth_cookie : Bytes
  pub handler : SaslHandler

-- XmppClientSettings, as far as Connect reads it; user is the Jid of user and host, and google is
-- whether the server is one of the two that want "gmail.com".
pub record Settings : Type 0 where
  pub resource : Bytes
  pub use_tls : Bool
  pub user : Jid
  pub google : Bool
  pub pass : Bytes
  pub auth_cookie : Bytes
  pub allow_plain : Bool

pub record Client : Type 0 where
  pub has_socket : Bool
  pub engine : Option Engine
  pub pre_auth : Option PreAuth
  pub pass : Bytes
  pub auth_cookie : Bytes
  pub pre_engine_error : Error
  pub pre_engine_subcode : ℕ
  pub captcha : Captcha
  pub signal_closed : Bool
  pub allow_plain : Bool
  pub delivering_signal : Bool
  pub steps : Steps

abbrev pub new_client : Steps → Client
new_client steps = record {
  has_socket = false;
  engine = none;
  pre_auth = none;
  pass = [];
  auth_cookie = [];
  pre_engine_error = error_none;
  pre_engine_subcode = 0;
  captcha = none;
  signal_closed = false;
  allow_plain = false;
  delivering_signal = false;
  steps = steps;
}

pub data Out : Type 0 where
  signal_state_change : State → Out
  start_pre_xmpp_auth : Jid → Bytes → Bytes → Out
  socket_connect socket_close : Out
  socket_write socket_start_tls : Bytes → Out

abbrev pub After : Type 0
After = Client × List Out

-- EnsureClosed; delivering_signal_ is set during the signal only.
unfoldable pub ensure_closed : Client → After
ensure_closed c =
    if not c.signal_closed
    then (record c { signal_closed = true }, signal_state_change closed ∷ [])
    else (c, [])

abbrev pub woken : Client → Client
woken c = record c { steps = (wake c.steps).0 }

-- Private::OnStateChange
unfoldable pub state_changed : State → Client → After
unfolding ensure_closed wake
state_changed state c =
    let (c1, outs) = ensure_closed c in
    if is_closed state then (woken c1, outs) else (woken c, signal_state_change state ∷ [])

-- A call on the socket, which Disconnect takes away.
abbrev pub on_socket : Out → Client → Option After
on_socket out c = if c.has_socket then some (c, out ∷ []) else none

-- A call of the engine on its output and session handler: WriteOutput, StartTls (with
-- FEATURE_ENABLE_SSL), CloseConnection and OnStateChange of Private. The others go to the tasks.
unfoldable pub engine_calls : Call → Client → Option After
unfolding state_changed
engine_calls (write_output bytes) c = on_socket (socket_write bytes) c
engine_calls (call_start_tls domain) c = on_socket (socket_start_tls domain) c
engine_calls close_connection c = on_socket socket_close c
engine_calls (on_state_change state) c = some (state_changed state c)
engine_calls (handle_stanza handler stanza) c = some (c, [])
engine_calls (iq_response cookie handler stanza) c = some (c, [])

unfoldable pub all_calls : List Call → Client → Option After
unfolding engine_calls
all_calls [] c = some (c, [])
all_calls (call ∷ calls) c =
    engine_calls call c >>= λ r. all_calls calls r.0 >>= λ r'. some (r'.0, r.1 ++ r'.1)

-- An operation of the engine, with the calls that it makes.
unfoldable pub through_engine : (Engine → Engine) → Engine → Client → Option After
unfolding all_calls
through_engine f e c =
    all_calls (drop (length e.calls) (f e).calls) (record c { engine = some (f e) })

-- The setters that Connect calls on the new engine, whose state is the first.
unfoldable pub prepared : Settings → Bool → Bytes → Engine
unfolding set_session_handler set_output_handler set_requested_resource set_use_tls set_tls_server
    set_user
prepared settings has_pre_auth lang =
    let e1 = (set_output_handler true (set_session_handler true new_engine).1).1 in
    let e2 =
      if not (is_empty settings.resource)
      then (set_requested_resource settings.resource e1).1
      else e1 in
    let e3 = (set_use_tls settings.use_tls e2).1 in
    let e4 =
      if settings.google && has_pre_auth
      then (set_tls_server (codes "gmail.com") (codes "gmail.com") e3).1
      else e3 in
    (set_user settings.user (record e4 { lang = lang })).1

abbrev pub is_given : Option PreAuth → Bool
is_given none = false
is_given (some _) = true

unfoldable pub connect_client :
    Settings → Bytes → Bool → Option PreAuth → Client → ReturnStatus × Client
unfolding prepared
connect_client settings lang socket pre_auth c =
    if not socket then (return_badargument, c) else if c.has_socket then (return_badstate, c) else (
      return_ok,
      record c {
        has_socket = true;
        engine = some (prepared settings (is_given pre_auth) lang);
        pass = settings.pass;
        auth_cookie = settings.auth_cookie;
        allow_plain = settings.allow_plain;
        pre_auth = pre_auth;
      },
    )

-- GetState; none is STATE_NONE.
unfoldable pub get_state : Client → Option State
get_state c = elim c.engine [ none ↦ none | some e ↦ some e.state ]

unfoldable pub get_stream_error : Client → Option XmlElement
get_stream_error c = elim c.engine [ none ↦ none | some e ↦ e.stream_error ]

unfoldable pub get_captcha_challenge : Client → Captcha
get_captcha_challenge c = elim c.engine [ none ↦ none | some _ ↦ c.captcha ]

unfoldable pub get_auth_cookie : Client → Bytes
get_auth_cookie c = elim c.engine [ none ↦ [] | some _ ↦ c.auth_cookie ]

-- GetError, with its subcode.
unfoldable pub get_error : Client → Error × ℕ
get_error c = elim c.engine [
  | none ↦ (error_none, 0)
  | some e ↦
      if not (is_error_none c.pre_engine_error)
      then (c.pre_engine_error, c.pre_engine_subcode)
      else (e.error_code, e.subcode)
]

-- What a Process method leaves, and the state that it returns; none is STATE_BLOCKED.
abbrev pub Processed : Type 0
Processed = Client × List Out × Option ℕ

unfoldable pub process_start : Client → Option Processed
unfolding set_sasl_handler
process_start c = c.engine >>= λ e. some (elim c.pre_auth [
  | some _ ↦ (
    record c { pass = [] },
    start_pre_xmpp_auth e.user_jid c.pass c.auth_cookie ∷ [],
    some state_pre_xmpp_login,
  )
  | none ↦ (
    record c {
      engine =
          some (set_sasl_handler (some (plain_sasl_handler e.user_jid c.pass c.allow_plain)) e).1;
      pass = [];
    },
    [],
    some state_start_xmpp_login,
  )
])

-- EnsureClosed and STATE_ERROR.
abbrev pub given_up : Client → Processed
given_up c = let (c1, outs) = ensure_closed c in (c1, outs, some state_error)

unfoldable pub refused : PreAuth → Client → Client
refused a c =
    if a.had_error
    then record c {
      pre_engine_error = error_auth;
      pre_engine_subcode = a.get_error;
      pre_auth = none;
    }
    else record c {
      pre_engine_error = error_unauthorized;
      pre_engine_subcode = 0;
      captcha = a.captcha;
      pre_auth = none;
    }

unfoldable pub authorized : PreAuth → Client → Option Processed
unfolding set_sasl_handler
authorized a c = c.engine >>= λ e. some (
  record c {
    auth_cookie = a.auth_cookie;
    engine = some (set_sasl_handler (some a.handler) e).1;
    pre_auth = none;
  },
  [],
  some state_start_xmpp_login,
)

unfoldable pub process_cookie_login : Client → Option Processed
unfolding ensure_closed refused authorized
process_cookie_login c = elim c.pre_auth [
  | none ↦ some (given_up (record c { pre_engine_error = error_auth }))
  | some a ↦
      if not a.is_auth_done
      then some (c, [], none)
      else if not a.is_authorized
      then some (given_up (refused a c))
      else authorized a c
]

-- The Boolean is what Connect of the socket answers.
abbrev pub socket_connects : Bool → Client → Processed
socket_connects connected c =
    if not connected
    then (let (c1, outs, state) = given_up c in (c1, socket_connect ∷ outs, state))
    else (c, socket_connect ∷ [], some state_response)

unfoldable pub process_start_xmpp_login : Bool → Client → Option Processed
unfolding ensure_closed
process_start_xmpp_login connected c =
    if not c.has_socket then none else some (socket_connects connected c)

abbrev pub engine_closed : Option Engine → Bool
engine_closed none = true
engine_closed (some e) = is_closed e.state

unfoldable pub process_response : Client → Option ℕ
process_response c =
    if not c.delivering_signal && engine_closed c.engine then some state_done else none

-- Disconnect of the engine, and the end of the socket.
unfoldable pub cut_off : Engine → Client → Option After
unfolding through_engine disconnect
cut_off e c = through_engine (λ e. (disconnect e).1) e c >>= λ r.
    some (record r.0 { has_socket = false }, r.1)

abbrev pub disconnect_from :
    Bool → Option Engine → Client → Option (ReturnStatus × Client × List Out)
disconnect_from false engine c = some (return_badstate, c, [])
disconnect_from true none c = none
disconnect_from true (some e) c = cut_off e c >>= λ r. some (return_ok, r.0, r.1)

unfoldable pub disconnect_client : Client → Option (ReturnStatus × Client × List Out)
unfolding cut_off
disconnect_client c = disconnect_from c.has_socket c.engine c

-- What happens to a client: an operation of its engine (HandleInput, ConnectionClosed and so on),
-- the states of its task, another connection, and Disconnect.
pub data ClientEvent : Type 0 where
  engine_runs : (Engine → Engine) → ClientEvent
  starts waits_for_auth responds disconnects : ClientEvent
  opens_socket : Bool → ClientEvent
  connects : Settings → Bytes → Bool → Option PreAuth → ClientEvent

abbrev pub without_state : Option Processed → Option After
without_state none = none
without_state (some (c, outs, state)) = some (c, outs)

abbrev pub without_status : Option (ReturnStatus × Client × List Out) → Option After
without_status none = none
without_status (some (status, c, outs)) = some (c, outs)

unfoldable pub client_happens : ClientEvent → Client → Option After
unfolding through_engine process_start process_cookie_login process_start_xmpp_login
    disconnect_client connect_client
client_happens (engine_runs f) c = c.engine >>= λ e. through_engine f e c
client_happens starts c = without_state (process_start c)
client_happens waits_for_auth c = without_state (process_cookie_login c)
client_happens responds c = some (c, [])
client_happens disconnects c = without_status (disconnect_client c)
client_happens (opens_socket connected) c = without_state (process_start_xmpp_login connected c)
client_happens (connects settings lang socket pre_auth) c =
    some ((connect_client settings lang socket pre_auth c).1, [])

unfoldable pub client_runs : List ClientEvent → Client → Option After
unfolding client_happens
client_runs [] c = some (c, [])
client_runs (v ∷ vs) c =
    client_happens v c >>= λ r. client_runs vs r.0 >>= λ r'. some (r'.0, r.1 ++ r'.1)

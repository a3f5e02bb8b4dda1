-- ===== src/Engine/Session.antt =====
-- The public operations of XmppEngineImpl on a session (xmppengineimpl.cc): settings, connection,
-- output. An operation that may read a null pointer, by way of the login task, returns Option.
use txmpp.Common.{
  ℕ, Bool, true, false, not, ◌||◌, List, [], ◌∷◌, ◌++◌, Option, none, some, Bytes, codes, ◌>>=◌,
  ◌==◌, if◌then◌else◌,
}
use txmpp.Engine.Internal.{put, internal_send_stanza, signal_error, enter, exit}
use txmpp.Engine.Login.{login_incoming, outgoing_stanza}
use txmpp.Engine.Types.{
  Engine, LoginTask, SaslHandler, opening, closed, error_socket, error_connection_closed,
  ReturnStatus, return_ok, return_badargument, return_badstate, Level, unlisted, peek, single,
  sender, type', all, is_closed, is_start_state, is_open, is_done,
}
use txmpp.Jid.{Jid}
use txmpp.Xml.Element.{XmlElement, is_some}

-- The setters' guard.
abbrev when_start : (Engine → Engine) → Engine → ReturnStatus × Engine
when_start f e = if not (is_start_state e.state) then (return_badstate, e) else (return_ok, f e)

unfoldable pub set_output_handler : Bool → Engine → ReturnStatus × Engine
set_output_handler h = when_start λ e. record e { output_handler = h }

unfoldable pub set_session_handler : Bool → Engine → ReturnStatus × Engine
set_session_handler h = when_start λ e. record e { session_handler = h }

unfoldable pub set_use_tls : Bool → Engine → ReturnStatus × Engine
set_use_tls use_tls = when_start λ e. record e { tls_needed = use_tls }

unfoldable pub set_tls_server : Bytes → Bytes → Engine → ReturnStatus × Engine
set_tls_server hostname domain =
    when_start λ e. record e { tls_server_hostname = hostname; tls_server_domain = domain }

unfoldable pub set_user : Jid → Engine → ReturnStatus × Engine
set_user jid = when_start λ e. record e { user_jid = jid }

unfoldable pub set_sasl_handler : Option SaslHandler → Engine → ReturnStatus × Engine
set_sasl_handler h = when_start λ e. record e { sasl_handler = h }

unfoldable pub set_requested_resource : Bytes → Engine → ReturnStatus × Engine
set_requested_resource resource = when_start λ e. record e { requested_resource = resource }

abbrev pub same_level : Level → Level → Bool
same_level unlisted unlisted = true
same_level peek peek = true
same_level single single = true
same_level sender sender = true
same_level type' type' = true
same_level all all = true
same_level _ _ = false

unfoldable pub add_stanza_handler : ℕ → Level → Engine → ReturnStatus × Engine
add_stanza_handler h level e =
    if is_closed e.state
    then (return_badstate, e)
    else let pushed = λ (level' : Level).
      let handlers = e.stanza_handlers level' in
      if same_level level' level then handlers ++ h ∷ [] else handlers in
      (return_ok, record e { stanza_handlers = pushed })

-- std::remove, and whether it found anything.
unfoldable pub removed : ℕ → List ℕ → List ℕ
removed h [] = []
removed h (k ∷ ks) = let rest = removed h ks in if k == h then rest else k ∷ rest

unfoldable pub listed : ℕ → List ℕ → Bool
listed h [] = false
listed h (k ∷ ks) = k == h || listed h ks

unfoldable pub remove_stanza_handler : ℕ → Engine → ReturnStatus × Engine
unfolding removed listed
remove_stanza_handler h e =
    let handlers = e.stanza_handlers in
    let found =
      listed h (handlers unlisted)
      || listed h (handlers peek)
      || listed h (handlers single)
      || listed h (handlers sender)
      || listed h (handlers type')
      || listed h (handlers all) in
    (
      if not found then return_badargument else return_ok,
      record e { stanza_handlers = λ level. removed h (handlers level) },
    )

-- The body of a public operation, between the two ends of an EnterExit object.
abbrev pub guarded : (Engine → Engine) → Engine → Engine
guarded body e = exit e.state (body (enter e))

-- The login task takes a stanza, and goes away once it is done.
unfoldable pub login_takes : (ℕ → ℕ) → Option XmlElement → Bool → LoginTask → Engine → Option Engine
login_takes tolower x is_start l e = login_incoming tolower x is_start e l >>= λ r.
    some (record r.0 { login_task = if is_done r.1 then none else some r.1 })

abbrev pub start_login : (ℕ → ℕ) → Option LoginTask → Engine → Option Engine
start_login tolower none e = some e
start_login tolower (some l) e = login_takes tolower none false l e

unfoldable pub connect : (ℕ → ℕ) → Engine → Option (ReturnStatus × Engine)
connect tolower e =
    if not (is_start_state e.state)
    then some (return_badstate, e)
    else start_login tolower e.login_task (record (enter e) { state = opening }) >>= λ e'.
        some (return_ok, exit e.state e')

abbrev pub send_or_queue : XmlElement → Option LoginTask → Engine → Engine
send_or_queue x none e = internal_send_stanza x e
send_or_queue x (some l) e = record e { login_task = some (outgoing_stanza x l) }

unfoldable pub send_stanza : XmlElement → Engine → ReturnStatus × Engine
send_stanza x e =
    if is_closed e.state
    then (return_badstate, e)
    else (return_ok, guarded (send_or_queue x e.login_task) e)

unfoldable pub send_raw : Bytes → Engine → ReturnStatus × Engine
send_raw text e =
    if is_closed e.state || is_some e.login_task
    then (return_badstate, e)
    else (return_ok, guarded (put text) e)

-- The body of Disconnect.
unfoldable pub close : Engine → Engine
unfolding put
close e =
    let e' = if is_open e.state then put (codes "</stream:stream>") e else e in
    record e' { state = closed }

unfoldable pub disconnect : Engine → ReturnStatus × Engine
unfolding close
disconnect e = if not (is_closed e.state) then (return_ok, guarded close e) else (return_ok, e)

-- The body of ConnectionClosed; the subcode is an int and tested against 0 only.
unfoldable pub drop_connection : ℕ → Engine → Engine
unfolding signal_error
drop_connection sub e =
    if not (sub == 0)
    then signal_error error_socket sub e
    else signal_error error_connection_closed 0 e

unfoldable pub connection_closed : ℕ → Engine → ReturnStatus × Engine
unfolding drop_connection
connection_closed sub e =
    if not (is_closed e.state) then (return_ok, guarded (drop_connection sub) e) else (return_ok, e)

-- ===== src/Engine/Internal.antt =====
-- The private operations of XmppEngineImpl (xmppengineimpl.cc) that the login task shares, and the
-- EnterExit guard that stands round every public operation.
use txmpp.Common.{
  ℕ, ◌+◌, ◌-◌, Bool, true, false, not, ◌&&◌, ◌||◌, List, [], ◌∷◌, ◌++◌, some, Bytes, codes, decimal,
  is_empty, ◌==◌, if◌then◌else◌,
}
use txmpp.Engine.Names.{ns_stream, ns_client}
use txmpp.Engine.Types.{
  Engine, State, opened, closed, Error, error_stream, Call, write_output, call_start_tls,
  close_connection, on_state_change, is_closed, is_opening, same_state, is_error_none,
}
use txmpp.Jid.{Jid}
use txmpp.Xml.Element.{XmlElement, or_empty}
use txmpp.Xml.Printer.{print_xml}

unfoldable pub raise_reset : Engine → Engine
raise_reset e = record e { raised_reset = true }

unfoldable pub has_error : Engine → Bool
has_error e = not (is_error_none e.error_code)

unfoldable pub put : Bytes → Engine → Engine
put s e = record e { output = e.output ++ s }

unfoldable pub stream_header : Bytes → Bytes → Bytes
stream_header hostname lang =
    codes "<stream:stream to=\""
    ++ (hostname
        ++ (codes "\" xml:lang=\""
            ++ (lang
                ++ codes
                    "\" version=\"1.0\" xmlns:stream=\"http://etherx.jabber.org/streams\" xmlns=\"jabber:client\">\r\n")))

unfoldable pub internal_send_start : Bytes → Engine → Engine
unfolding put stream_header
internal_send_start to e =
    put
      (stream_header (if is_empty e.tls_server_hostname then to else e.tls_server_hostname)
        (if is_empty e.lang then codes "*" else e.lang))
      e

-- XMPP_CLIENT_NAMESPACES
abbrev pub xmpp_client_namespaces : List (Bytes × Bytes)
xmpp_client_namespaces = (codes "stream", ns_stream) ∷ ([], ns_client) ∷ []

-- What PrintXml puts in the output.
unfoldable pub printed : XmlElement → Bytes
printed x = or_empty (print_xml x xmpp_client_namespaces)

unfoldable pub internal_send_stanza : XmlElement → Engine → Engine
unfolding put
internal_send_stanza x e = put (printed x) e

-- NextId: the id, and the engine with the counter moved on.
unfoldable pub next_id : Engine → Bytes × Engine
next_id e = (decimal e.next_id, record e { next_id = e.next_id + 1 })

unfoldable pub signal_bound : Jid → Engine → Engine
signal_bound full_jid e =
    if is_opening e.state then record e { bound_jid = full_jid; state = opened } else e

unfoldable pub signal_error : Error → ℕ → Engine → Engine
signal_error code sub e =
    if not (is_closed e.state)
    then record e { error_code = code; subcode = sub; state = closed }
    else e

unfoldable pub signal_stream_error : XmlElement → Engine → Engine
unfolding signal_error
signal_stream_error x e =
    if not (is_closed e.state)
    then signal_error error_stream 0 (record e { stream_error = some x })
    else e

unfoldable pub call : Call → Engine → Engine
call c e = record e { calls = e.calls ++ c ∷ [] }

unfoldable pub start_tls : Bytes → Engine → Engine
unfolding call
start_tls domain e =
    if e.output_handler
    then record (call
        (call_start_tls (if is_empty e.tls_server_domain then domain else e.tls_server_domain)) e) {
          encrypted = true;
        }
    else e

-- EnterExit::EnterExit
unfoldable pub enter : Engine → Engine
enter e = record e { engine_entered = e.engine_entered + 1 }

-- The flush in EnterExit::~EnterExit.
unfoldable pub flush : Bool → Engine → Engine
unfolding call
flush closing e =
    let written = if is_empty e.output then e else call (write_output e.output) e in
    let emptied = record written { output = [] } in
    if closing then record (call close_connection emptied) { output_handler = false } else emptied

-- The rest of the destructor, at the outermost exit. XmppStanzaParser::Reset is not part of the
-- engine's own state.
unfoldable pub leave_outermost : State → Engine → Engine
unfolding call
leave_outermost saved e =
    let calm = if e.raised_reset then record e { raised_reset = false } else e in
    if calm.session_handler && not (same_state calm.state saved)
    then call (on_state_change calm.state) calm
    else calm

-- EnterExit::~EnterExit, for an object that was made in the state `saved`: the condition for the
-- flush, and the whole.
unfoldable pub flush_if_due : State → Engine → Engine
unfolding flush
flush_if_due saved e =
    let closing = not (same_state e.state saved) && is_closed e.state in
    if e.output_handler && (closing || e.engine_entered == 0) then flush closing e else e

abbrev pub leave_if_outermost : State → Engine → Engine
leave_if_outermost saved e = if not (e.engine_entered == 0) then e else leave_outermost saved e

unfoldable pub exit : State → Engine → Engine
unfolding flush_if_due leave_outermost
exit saved e =
    leave_if_outermost saved
      (flush_if_due saved (record e { engine_entered = e.engine_entered - 1 }))

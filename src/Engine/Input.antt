-- ===== src/Engine/Input.antt =====
-- Input from the server (xmppengineimpl.cc: HandleInput and the calls that the stanza parser makes
-- on the engine). The parser's calls are given as a list of events. What a stanza handler answers
-- is the parameter `handles`.
use txmpp.Common.{
  ℕ, Bool, true, false, not, ◌&&◌, ◌||◌, List, [], ◌∷◌, Option, none, some, codes, beq, ◌>>=◌,
  if◌then◌else◌,
}
use txmpp.Engine.Internal.{call, has_error, signal_error, signal_stream_error, enter, exit}
use txmpp.Engine.Iq.{feature_not_implemented, handle_iq_response, send_stanza_error}
use txmpp.Engine.Names.{qn_stream_error, qn_iq, qn_type}
use txmpp.Engine.Session.{login_takes}
use txmpp.Engine.Types.{
  Engine, LoginTask, ReturnStatus, return_ok, return_badstate, error_xml, error_document_closed,
  handle_stanza, peek, single, sender, type', all, is_opening, is_open,
}
use txmpp.Xml.Element.{XmlElement, name, attr}
use txmpp.Xml.QName.{qname_eq}

-- The methods of XmppStanzaParseHandler.
pub data ParseEvent : Type 0 where
  start_stream : XmlElement → ParseEvent
  stanza : XmlElement → ParseEvent
  end_stream xml_error : ParseEvent

abbrev pub incoming_start_for : (ℕ → ℕ) → XmlElement → Option LoginTask → Engine → Option Engine
incoming_start_for tolower x none e = some (signal_error error_xml 0 e)
incoming_start_for tolower x (some l) e = login_takes tolower (some x) true l e

unfoldable pub incoming_start : (ℕ → ℕ) → XmlElement → Engine → Option Engine
incoming_start tolower x e =
    if has_error e || e.raised_reset then some e else incoming_start_for tolower x e.login_task e

-- Every handler is called, whatever it answers.
unfoldable pub show_all : List ℕ → XmlElement → Engine → Engine
show_all [] x e = e
show_all (h ∷ hs) x e = show_all hs x (call (handle_stanza h x) e)

-- The handlers of one level are called until one answers true.
unfoldable pub offer : (ℕ → XmlElement → Bool) → List ℕ → XmlElement → Engine → Bool × Engine
offer handles [] x e = (false, e)
offer handles (h ∷ hs) x e =
    let called = call (handle_stanza h x) e in
    let rest = offer handles hs x called in if handles h x then (true, called) else rest

abbrev pub or_offer : (ℕ → XmlElement → Bool) → List ℕ → XmlElement → Bool × Engine → Bool × Engine
or_offer handles hs x (true, e) = (true, e)
or_offer handles hs x (false, e) = offer handles hs x e

-- The levels from HL_SINGLE to HL_ALL, after HL_PEEK.
unfoldable pub deliver : (ℕ → XmlElement → Bool) → XmlElement → Engine → Bool × Engine
unfolding offer show_all
deliver handles x e = or_offer handles (e.stanza_handlers all) x (
    or_offer handles (e.stanza_handlers type') x (
      or_offer handles (e.stanza_handlers sender) x
        (offer handles (e.stanza_handlers single) x (show_all (e.stanza_handlers peek) x e))))

-- An iq that is no answer, which nobody took, is refused.
abbrev pub refuse : XmlElement → Bool × Engine → Option Engine
refuse x (true, e) = some e
refuse x (false, e) =
    if qname_eq (name x) qn_iq
      && not (beq (attr qn_type x) (codes "error") || beq (attr qn_type x) (codes "result"))
    then (send_stanza_error x feature_not_implemented [] e >>= λ r. some r.1)
    else some e

abbrev pub or_deliver : (ℕ → XmlElement → Bool) → XmlElement → Bool × Engine → Option Engine
or_deliver handles x (true, e) = some e
or_deliver handles x (false, e) = refuse x (deliver handles x e)

abbrev pub incoming_stanza_for :
    (ℕ → ℕ) → (ℕ → XmlElement → Bool) → XmlElement → Option LoginTask → Engine → Option Engine
incoming_stanza_for tolower handles x (some l) e = login_takes tolower (some x) false l e
incoming_stanza_for tolower handles x none e = or_deliver handles x (handle_iq_response x e)

unfoldable pub incoming_stanza :
    (ℕ → ℕ) → (ℕ → XmlElement → Bool) → XmlElement → Engine → Option Engine
unfolding deliver
incoming_stanza tolower handles x e =
    if has_error e || e.raised_reset
    then some e
    else if qname_eq (name x) qn_stream_error
    then some (signal_stream_error x e)
    else incoming_stanza_for tolower handles x e.login_task e

unfoldable pub incoming_end : Bool → Engine → Engine
incoming_end is_error e =
    if has_error e || e.raised_reset
    then e
    else signal_error (if is_error then error_xml else error_document_closed) 0 e

-- The methods of StanzaParseHandler.
unfoldable pub handle_event :
    (ℕ → ℕ) → (ℕ → XmlElement → Bool) → ParseEvent → Engine → Option Engine
unfolding incoming_start incoming_stanza incoming_end
handle_event tolower handles (start_stream x) e = incoming_start tolower x e
handle_event tolower handles (stanza x) e = incoming_stanza tolower handles x e
handle_event tolower handles end_stream e = some (incoming_end false e)
handle_event tolower handles xml_error e = some (incoming_end true e)

unfoldable pub handle_events :
    (ℕ → ℕ) → (ℕ → XmlElement → Bool) → List ParseEvent → Engine → Option Engine
unfolding handle_event
handle_events tolower handles [] e = some e
handle_events tolower handles (v ∷ vs) e =
    handle_event tolower handles v e >>= λ e'. handle_events tolower handles vs e'

unfoldable pub handle_input :
    (ℕ → ℕ) → (ℕ → XmlElement → Bool) → List ParseEvent → Engine → Option (ReturnStatus × Engine)
unfolding handle_events
handle_input tolower handles vs e =
    if not (is_opening e.state || is_open e.state)
    then some (return_badstate, e)
    else handle_events tolower handles vs (enter e) >>= λ e'. some (return_ok, exit e.state e')

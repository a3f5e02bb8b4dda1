-- ===== src/Parser.antt =====
-- XmlParser with its ParseContext (xmlparser.h, xmlparser.cc), and XmppStanzaParser
-- (xmppstanzaparser.h, xmppstanzaparser.cc) as its handler. Expat is given by its reports: the
-- callbacks it makes for a piece of input, in order, and whether it then fails. Line and column
-- numbers, which serve the log only, are left out. A read of a null or dangling pointer is none.
pub mod Builder
pub mod Document
pub mod Items
pub mod Runs
pub mod Contents
pub mod Refine
pub mod Shape
pub mod Balance
use txmpp.Common.{
  ℕ, zero, suc, ◌+◌, Bool, true, false, not, ◌&&◌, ◌||◌, List, [], ◌∷◌, ◌++◌, Option, none, some,
  Bytes, codes, beq, is_empty, starts_with, drop, ◌==◌, if◌then◌else◌, ◌>>=◌,
}
use txmpp.Engine.Input.{ParseEvent, start_stream, stanza, end_stream, xml_error}
use txmpp.Parser.Builder.{
  XmlBuilder, new_builder, build_element, start_element, end_element, character_data,
  create_element,
}
use txmpp.Xml.Element.{XmlElement}
use txmpp.Xml.NsStack.{XmlnsStack, empty, push_frame, pop_frame, add_xmlns}

-- The codes of expat that the source names; the others are expat's own.
pub data XmlError : Type 0 where
  no_error syntax incorrect_encoding : XmlError
  other_error : ℕ → XmlError

abbrev pub is_raised : XmlError → Bool
is_raised no_error = false
is_raised _ = true

-- A callback of expat. The attributes are the name and value of each; an absent version, or
-- encoding is none, and the last number of a declaration is 0 for standalone="no".
pub data Token : Type 0 where
  start_tag : Bytes → List (Bytes × Bytes) → Token
  end_tag : Bytes → Token
  char_data : Bytes → Token
  xml_decl : Option Bytes → Option Bytes → Bool → Token

-- XmlParser::ParseContext
pub record ParseContext : Type 0 where
  pub xmlnsstack : XmlnsStack
  pub raised : XmlError

-- XmppStanzaParser, with its XmlParser
pub record StanzaParser : Type 0 where
  pub context : ParseContext
  pub sent_error : Bool
  pub depth : ℕ
  pub builder : XmlBuilder

abbrev pub new_parser : StanzaParser
new_parser = record {
  context = record { xmlnsstack = empty; raised = no_error };
  sent_error = false;
  depth = 0;
  builder = new_builder;
}

-- XmppStanzaParser::Reset, with XmlParser::Reset and XmlBuilder::Reset.
unfoldable pub reset : StanzaParser → StanzaParser
reset p = new_parser

-- ParseContext::RaiseError
unfoldable pub raise_error : XmlError → StanzaParser → StanzaParser
raise_error err p =
    if not (is_raised p.context.raised)
    then record p { context = record p.context { raised = err } }
    else p

abbrev pub set_stack : XmlnsStack → StanzaParser → StanzaParser
set_stack st p = record p { context = record p.context { xmlnsstack = st } }

-- What a callback leaves: the parser, and the calls on the handler of the stanzas.
abbrev pub Report : Type 0
Report = StanzaParser × List ParseEvent

-- The loop over the attributes: the namespaces declared, and whether none is empty with a prefix,
-- where the loop breaks off.
unfoldable pub start_namespaces : List (Bytes × Bytes) → XmlnsStack → Bool × XmlnsStack
start_namespaces [] st = (true, st)
start_namespaces ((name, value) ∷ atts) st =
    if beq name (codes "xmlns")
    then start_namespaces atts (add_xmlns [] value st)
    else if starts_with (codes "xmlns:") name
    then (if is_empty value
        then (false, st)
        else start_namespaces atts (add_xmlns (drop 6 name) value st))
    else start_namespaces atts st

abbrev stream_of : StanzaParser → Option XmlElement → Report
stream_of p none = (raise_error syntax p, [])
stream_of p (some x) = (p, start_stream x ∷ [])

abbrev raise_or : StanzaParser → Option XmlBuilder → Report
raise_or p none = (raise_error syntax p, [])
raise_or p (some b) = (record p { builder = b }, [])

-- XmppStanzaParser::IncomingStartElement
unfoldable pub incoming_start_element : Bytes → List (Bytes × Bytes) → StanzaParser → Option Report
unfolding raise_error
incoming_start_element name atts p =
    let st = p.context.xmlnsstack in
    elim p.depth [
      | zero ↦ some (stream_of (record p { depth = 1 }) (build_element name atts st))
      | suc d ↦ start_element name atts st p.builder >>= λ b.
          some (raise_or (record p { depth = suc (suc d) }) b)
    ]

-- XmppStanzaParser::IncomingCharacterData
unfoldable pub incoming_character_data : Bytes → StanzaParser → Option Report
incoming_character_data text p = elim p.depth [
  | zero ↦ some (p, [])
  | suc zero ↦ some (p, [])
  | suc (suc _) ↦ character_data text p.builder >>= λ b. some (record p { builder = b }, [])
]

-- The stanza that is handed over at depth 1.
abbrev hand_over : StanzaParser → XmlBuilder → Option Report
hand_over p b = create_element b >>= λ r. some (record p { builder = r.1 }, stanza r.0 ∷ [])

-- XmppStanzaParser::IncomingEndElement; an end tag that has no start tag goes on to the empty
-- vector of parents.
unfoldable pub incoming_end_element : StanzaParser → Option Report
incoming_end_element p = elim p.depth [
  | zero ↦ none
  | suc zero ↦ some (record p { depth = 0 }, end_stream ∷ [])
  | suc (suc zero) ↦ end_element p.builder >>= λ b. hand_over (record p { depth = 1 }) b
  | suc (suc (suc d)) ↦
      end_element p.builder >>= λ b. some (record p { depth = suc (suc d); builder = b }, [])
]

-- XmlParser::ExpatStartElement, after the test for an error.
unfoldable pub expat_start_element : Bytes → List (Bytes × Bytes) → StanzaParser → Option Report
unfolding start_namespaces incoming_start_element raise_error
expat_start_element name atts p =
    let (legal, st) = start_namespaces atts (push_frame p.context.xmlnsstack) in
    let declared = set_stack st p in
    if legal
    then incoming_start_element name atts declared
    else some (raise_error syntax declared, [])

-- XmlParser::ExpatEndElement
unfoldable pub expat_end_element : StanzaParser → Option Report
unfolding incoming_end_element
expat_end_element p = pop_frame p.context.xmlnsstack >>= λ st. incoming_end_element (set_stack st p)

abbrev pub is_version : Option Bytes → Bool
is_version none = true
is_version (some ver) = beq ver (codes "1.0")

abbrev utf8_prefix : Bytes → Bool
utf8_prefix (u ∷ t ∷ f ∷ dash ∷ eight ∷ _) =
    (u == b'U' || u == b'u')
    && (t == b'T' || t == b't')
    && (f == b'F' || f == b'f')
    && dash == b'-'
    && eight == b'8'
utf8_prefix _ = false

abbrev pub is_encoding : Option Bytes → Bool
is_encoding none = true
is_encoding (some enc) = utf8_prefix enc

-- XmlParser::ExpatXmlDecl; the flag is that of standalone="no".
unfoldable pub expat_xml_decl : Option Bytes → Option Bytes → Bool → StanzaParser → StanzaParser
unfolding raise_error
expat_xml_decl ver enc standalone_no p =
    if not (is_version ver)
    then raise_error syntax p
    else if standalone_no
    then raise_error syntax p
    else if not (is_encoding enc)
    then raise_error incorrect_encoding p
    else p

-- One callback: nothing more once an error is raised.
unfoldable pub callback : Token → StanzaParser → Option Report
unfolding expat_start_element expat_end_element expat_xml_decl incoming_character_data
callback t p = if is_raised p.context.raised then some (p, []) else elim t [
  | start_tag name atts ↦ expat_start_element name atts p
  | end_tag name ↦ expat_end_element p
  | char_data text ↦ incoming_character_data text p
  | xml_decl ver enc standalone_no ↦ some (expat_xml_decl ver enc standalone_no p, [])
]

-- The callbacks of one call of XML_Parse.
unfoldable pub callbacks : List Token → StanzaParser → Option Report
unfolding callback
callbacks [] p = some (p, [])
callbacks (t ∷ ts) p = do (p1, v1) ← callback t p; (p2, v2) ← callbacks ts p1; some (p2, v1 ++ v2)

-- The end of XmlParser::Parse: the error of expat, if it fails, and the one that was raised.
abbrev pub settle : StanzaParser → List ParseEvent → Bool → Option Report
settle p v true = some (record p { sent_error = true }, v ++ xml_error ∷ [])
settle p v false = some (p, v)

abbrev pub finish_chunk : XmlError → Report → Option Report
finish_chunk failure r =
    let p = if is_raised failure then raise_error failure r.0 else r.0 in
    settle p r.1 (is_raised p.context.raised)

-- XmlParser::Parse: the reports of expat, with the error that it ends in. The error is sent once.
unfoldable pub parse_chunk : List Token → XmlError → StanzaParser → Option Report
unfolding callbacks raise_error
parse_chunk ts failure p =
    if p.sent_error then some (p, []) else callbacks ts p >>= finish_chunk failure

-- ===== src/Tests/Parsers.antt =====
-- Streams as expat reports them (xmlparser.cc, xmlbuilder.cc, xmppstanzaparser.cc, xmppengineimpl.cc).
use txmpp.Common.{
  ℕ, true, false, ◌≡◌, refl, ◌⊎◌, List, [], ◌∷◌, ◌++◌, some, none, codes, beq, is_empty,
  starts_with,
}
use txmpp.Engine.Input.{ParseEvent, start_stream, stanza, end_stream}
use txmpp.Engine.Reach.Live.{live_opening}
use txmpp.Engine.Stream.{receive, IsConnected, receive-IsConnected}
use txmpp.Engine.Types.{
  Engine, ReturnStatus, new_engine, new_login_task, opening, streamstart_sent, LoginTask,
  SaslHandler,
}
use txmpp.Parser.{
  Token, start_tag, end_tag, char_data, no_error, syntax, other_error, StanzaParser, new_parser,
  parse_chunk, start_namespaces,
}
use txmpp.Parser.Balance.{parse_chunk-IsSane}
use txmpp.Parser.Shape.{Balanced, done, moves, by_start, by_end, by_text, IsSane, new_parser-IsSane}
use txmpp.Parser.Document.{
  denotes, filled, with_text, with_child, Holds, nothing, between, then_stanza,
}
use txmpp.Parser.Refine.{parse_chunk-Holds, waiting}
use txmpp.Parser.Runs.{then_run, parse_chunk-append}
use txmpp.Xml.Element.{
  XmlElement, element, end, text, child, add_attr, append_text, add_element, append_child,
}
use txmpp.Xml.NsStack.{XmlnsStack, empty}
use txmpp.Xml.QName.{qn, qn_xmlns}

-- <s xmlns="u">
abbrev opened : Token
opened = start_tag (codes "s") ((codes "xmlns", codes "u") ∷ [])

-- <m>hi<b/></m>, between spaces; the text comes in three parts, of which one is empty
abbrev inside : List Token
inside =
    char_data (codes " ")
    ∷ start_tag (codes "m") []
    ∷ char_data (codes "h")
    ∷ char_data []
    ∷ char_data (codes "i")
    ∷ start_tag (codes "b") []
    ∷ end_tag (codes "b")
    ∷ end_tag (codes "m")
    ∷ char_data (codes " ")
    ∷ []

abbrev scope : XmlnsStack
scope = record { xmlns = ([], codes "u") ∷ []; depths = 0 ∷ [] }

abbrev root : XmlElement
root =
    element (qn (codes "u") (codes "s")) (record { name = qn_xmlns; value = codes "u" } ∷ []) end
      false

abbrev in_message : XmlnsStack
in_message = record { xmlns = ([], codes "u") ∷ []; depths = 1 ∷ 0 ∷ [] }

abbrev in_bold : XmlnsStack
in_bold = record { xmlns = ([], codes "u") ∷ []; depths = 1 ∷ 1 ∷ 0 ∷ [] }

abbrev bold : XmlElement
bold = element (qn (codes "u") (codes "b")) [] end false

abbrev message : XmlElement
message = element (qn (codes "u") (codes "m")) [] (text (codes "hi") (child bold end)) false

parse_chunk-append_example :
    parse_chunk ((opened ∷ inside) ++ end_tag (codes "s") ∷ []) (other_error 3) new_parser
    ≡ then_run
        (parse_chunk (opened ∷ inside) no_error new_parser)
        (parse_chunk (end_tag (codes "s") ∷ []) (other_error 3))
parse_chunk-append_example =
    parse_chunk-append (opened ∷ inside) (end_tag (codes "s") ∷ []) (other_error 3) new_parser

inside-Holds : Holds scope inside (message ∷ [])
unfolding txmpp.Parser.start_namespaces txmpp.Xml.NsStack.push_frame txmpp.Xml.NsStack.add_xmlns
    txmpp.Parser.Builder.build_element txmpp.Parser.Builder.build_atts txmpp.Parser.Builder.seen
    txmpp.Xml.NsStack.resolve_qname txmpp.Xml.NsStack.split_first_colon
    txmpp.Xml.NsStack.ns_for_prefix txmpp.Xml.QName.qname_eq beq is_empty starts_with add_attr
    append_text add_element append_child txmpp.Xml.NsStack.Suggest.is_xml_like
    txmpp.Xml.NsStack.lookup_prefix
inside-Holds = between (
    then_stanza
      {us = start_tag (codes "m") []
        ∷ char_data (codes "h")
        ∷ char_data []
        ∷ char_data (codes "i")
        ∷ start_tag (codes "b") []
        ∷ end_tag (codes "b")
        ∷ end_tag (codes "m")
        ∷ []}
      (denotes {scope = in_message}
        {ts = char_data (codes "h")
          ∷ char_data []
          ∷ char_data (codes "i")
          ∷ start_tag (codes "b") []
          ∷ end_tag (codes "b")
          ∷ []}
        refl refl
        (with_text (
          with_text (
            with_text (
              with_child {us = start_tag (codes "b") [] ∷ end_tag (codes "b") ∷ []} {ts = []}
                (denotes {scope = in_bold} {ts = []} refl refl filled) filled)))))
      (between nothing))

parse_chunk-Holds_example :
    (parse_chunk (opened ∷ inside) no_error new_parser
      ≡ some (waiting scope, start_stream root ∷ stanza message ∷ []))
    × (parse_chunk (opened ∷ (inside ++ end_tag (codes "s") ∷ [])) no_error new_parser
        ≡ some (new_parser, start_stream root ∷ stanza message ∷ end_stream ∷ []))
unfolding txmpp.Parser.start_namespaces txmpp.Xml.NsStack.push_frame txmpp.Xml.NsStack.add_xmlns
    txmpp.Parser.Builder.build_element txmpp.Parser.Builder.build_atts txmpp.Parser.Builder.seen
    txmpp.Xml.NsStack.resolve_qname txmpp.Xml.NsStack.split_first_colon
    txmpp.Xml.NsStack.ns_for_prefix txmpp.Xml.QName.qname_eq beq is_empty starts_with add_attr
    append_text add_element append_child txmpp.Xml.NsStack.Suggest.is_xml_like
    txmpp.Xml.NsStack.lookup_prefix
parse_chunk-Holds_example =
    parse_chunk-Holds (codes "s") ((codes "xmlns", codes "u") ∷ []) scope inside (message ∷ []) refl
      refl inside-Holds

balanced : Balanced 0 (opened ∷ inside) 1
balanced = moves (by_start (codes "s") ((codes "xmlns", codes "u") ∷ [])) (
    moves (by_text (codes " ")) (
      moves (by_start (codes "m") []) (
        moves (by_text (codes "h")) (
          moves (by_text []) (
            moves (by_text (codes "i")) (
              moves (by_start (codes "b") []) (
                moves (by_end (codes "b"))
                  (moves (by_end (codes "m")) (moves (by_text (codes " ")) done)))))))))

parse_chunk-IsSane_example :
    (p' : StanzaParser) × (vs : List ParseEvent) × (parse_chunk
        (opened ∷ inside)
        (other_error 3)
        new_parser
      ≡ some (p', vs))
    × IsSane 1 p'
parse_chunk-IsSane_example =
    parse_chunk-IsSane 0 1 (opened ∷ inside) (other_error 3) new_parser balanced new_parser-IsSane

abbrev handler : SaslHandler
handler = record {
  choose_best_sasl_mechanism = λ offered encrypted. [];
  create_sasl_mechanism = λ chosen. none;
}

abbrev waiting_task : LoginTask
waiting_task = record new_login_task { state = streamstart_sent }

abbrev connecting : Engine
connecting = record new_engine {
  sasl_handler = some handler;
  output_handler = true;
  state = opening;
  login_task = some waiting_task;
}

connecting-IsConnected : IsConnected 0 connecting new_parser
unfolding txmpp.Engine.Internal.has_error
connecting-IsConnected = (live_opening waiting_task refl refl refl refl refl, new_parser-IsSane)

receive-IsConnected_example :
    (s : ReturnStatus) × (e' : Engine) × (p' : StanzaParser) × (receive
        (λ c. c)
        (λ h x. false)
        (opened ∷ inside)
        no_error
        connecting
        new_parser
      ≡ some (s, e', p'))
    × (k : ℕ) × IsConnected k e' p'
    × ((k ≡ 0) ⊎ ((k ≡ 1) ⊎ (p' ≡ new_parser)))
receive-IsConnected_example =
    receive-IsConnected (λ c. c) (λ h x. false) 0 1 (opened ∷ inside) no_error connecting new_parser
      balanced connecting-IsConnected

-- ===== src/Tests/Sessions.antt =====
-- Sessions (xmppengineimpl.cc, xmppengineimpl_iq.cc, xmpplogintask.cc).
use txmpp.Common.{true, false, ◌≡◌, refl, ◌⊎◌, none, some, [], ◌∷◌, ◌++◌, List, codes, AllTrue, beq}
use txmpp.Engine.Input.{start_stream, stanza, end_stream, handle_input}
use txmpp.Engine.Internal.{call, internal_send_start, put}
use txmpp.Engine.Iq.{not_allowed, error_element, handle_iq_response}
use txmpp.Engine.Iq.Answers.{FoundAt, ignores, handle_iq_response_lem}
use txmpp.Engine.Iq.Errors.{error_child, extra, reply_attrs, error_element_lem}
use txmpp.Engine.Login.{login_incoming}
use txmpp.Engine.Login.Safety.{
  is_ready, is_secured, is_settled, before_tls, login_incoming_total, login_incoming_secured,
  login_incoming_settled,
}
use txmpp.Engine.Names.{qn_iq, qn_id, qn_type, qn_from}
use txmpp.Engine.Reach.Closing.{connect-IsLive}
use txmpp.Engine.Reach.Events.{handle_input-IsLive}
use txmpp.Engine.Reach.Live.{IsLive, live_opening}
use txmpp.Engine.Session.{connect}
use txmpp.Engine.Types.{
  Engine, LoginTask, SaslHandler, SaslMechanism, IqEntry, ReturnStatus, return_ok, iq_response,
  new_engine, new_login_task, opening, closed, session_requested, streamstart_sent,
}
use txmpp.Xml.Element.{
  XmlAttr, XmlElement, element, end, text, child, name, attributes, children, attr, new_element,
}
use txmpp.Xml.Element.Contents.{elements, text_content}
use txmpp.Xml.QName.{QName, qn}

-- A client that offers PLAIN and answers every challenge with an empty response.
abbrev response : XmlElement
response = new_element (qn (codes "urn:ietf:params:xml:ns:xmpp-sasl") (codes "response"))

abbrev mechanism : SaslMechanism
mechanism = record { start_sasl_auth = some response; handle_sasl_challenge = λ x. some response }

abbrev handler : SaslHandler
handler = record {
  choose_best_sasl_mechanism = λ offered encrypted. codes "PLAIN";
  create_sasl_mechanism = λ chosen. some mechanism;
}

abbrev fresh : Engine
fresh = record new_engine { sasl_handler = some handler; output_handler = true }

abbrev going : Engine
going = record fresh { state = opening }

abbrev waiting : LoginTask
waiting = record new_login_task { state = streamstart_sent }

-- <iq type="result" id="1"/>
abbrev result : XmlElement
result =
    element qn_iq
      (record { name = qn_type; value = codes "result" }
        ∷ record { name = qn_id; value = codes "1" }
        ∷ [])
      end false

abbrev last_step : LoginTask
last_step = record new_login_task {
  state = session_requested;
  iq_id = codes "1";
  queued = result ∷ [];
}

login_incoming_total_example :
    (e' : Engine) × (l' : LoginTask) × (login_incoming (λ c. c) (some result) false going waiting
      ≡ some (e', l'))
    × (is_ready e' l' ≡ true)
    × (l'.stanza ≡ none)
login_incoming_total_example = login_incoming_total (λ c. c) (some result) false going waiting refl

login_incoming_secured_example :
    (e' : Engine) × (l' : LoginTask) × (login_incoming (λ c. c) (some result) false going waiting
      ≡ some (e', l'))
    × (is_secured e' l' ≡ true)
    × ((before_tls l'.state ≡ true) ⊎ (e'.encrypted ≡ true))
login_incoming_secured_example =
    login_incoming_secured (λ c. c) (some result) false going waiting refl refl

login_incoming_settled_example :
    (e' : Engine) × (l' : LoginTask) × (login_incoming (λ c. c) (some result) false going waiting
      ≡ some (e', l'))
    × (is_ready e' l' ≡ true)
    × (is_settled e' l' ≡ true)
unfolding txmpp.Engine.Internal.has_error
login_incoming_settled_example =
    login_incoming_settled (λ c. c) (some result) false going waiting refl refl

-- <iq type="get" id="1" from="a">?</iq>
abbrev request : XmlElement
request =
    element qn_iq
      (record { name = qn_type; value = codes "get" }
        ∷ record { name = qn_from; value = codes "a" }
        ∷ [])
      (text (codes "?") end) false

error_element_lem_example :
    (x : XmlElement) × (error_element request not_allowed (codes "no") ≡ some x)
    × (name x ≡ qn_iq)
    × (attributes x
        ≡ record { name = qn_type; value = codes "error" } ∷ reply_attrs (attributes request))
    × (elements (children x)
        ≡ (elements (children request) ++ error_child not_allowed ∷ []) ++ extra (codes "no"))
    × (text_content (children x) ≡ codes "?")
error_element_lem_example = error_element_lem request not_allowed (codes "no")

abbrev asked : Engine
asked = record fresh {
  iq_entries = record { cookie = 0; id = codes "1"; to = []; handler = 7 } ∷ [];
}

handle_iq_response_lem_example :
    ((handle_iq_response result asked ≡ (false, asked))
      × AllTrue (ignores (attr qn_id result) (attr qn_from result)) asked.iq_entries)
    ⊎ ((i : IqEntry) × (rest : List IqEntry) × (handle_iq_response result asked ≡ (
      true,
      call (iq_response i.handler i.cookie result) (record asked { iq_entries = rest }),
    ))
        × FoundAt (attr qn_id result) (attr qn_from result) asked.iq_entries i rest)
unfolding txmpp.Xml.QName.qname_eq beq attr txmpp.Xml.Element.find_attr txmpp.Xml.Element.has_attr
handle_iq_response_lem_example = handle_iq_response_lem result asked refl

connect-IsLive_example : (e' : Engine) × (connect (λ c. c) fresh ≡ some (return_ok, e')) × IsLive e'
unfolding txmpp.Engine.Internal.has_error
connect-IsLive_example = connect-IsLive (λ c. c) fresh new_login_task refl refl refl refl refl

handle_input-IsLive_example :
    (s : ReturnStatus) × (e' : Engine) × (handle_input
        (λ c. c)
        (λ h x. false)
        (start_stream result ∷ stanza result ∷ end_stream ∷ [])
        (record going { login_task = some waiting })
      ≡ some (s, e'))
    × IsLive e'
unfolding txmpp.Engine.Internal.has_error
handle_input-IsLive_example =
    handle_input-IsLive (λ c. c) (λ h x. false)
      (start_stream result ∷ stanza result ∷ end_stream ∷ [])
      (record going { login_task = some waiting }) (live_opening waiting refl refl refl refl refl)

abbrev over : Engine
over = record fresh { state = closed }

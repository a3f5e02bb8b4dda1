-- ===== src/Sasl.antt =====
-- The SASL mechanisms and the handler that are built in (saslmechanism.h, saslmechanism.cc,
-- saslplainmechanism.h, saslcookiemechanism.h, plainsaslhandler.h). A password is the bytes that
-- CryptString::CopyTo gives.
pub mod Credentials
use txmpp.Base64.{encode_from_array, decode_from_array, do_strict}
use txmpp.Base64.RoundTrip.{is_byte, decode_from_array-encode_from_array}
use txmpp.Common.{
  ℕ, Bool, true, false, not, ◌&&◌, ◌||◌, ◌≡◌, refl, ap, sym, ◌∙◌, ◌⊎◌, inl, inr, List, [], ◌∷◌,
  ◌++◌, Option, none, some, Bytes, codes, beq, beq_iff, beq_refl, is_empty, length, AllTrue, nil,
  cons, AllTrue-append, if◌then◌else◌, arith, Bool-cases,
}
use txmpp.Engine.Names.{qn_sasl_auth, qn_sasl_abort, qn_mechanism}
use txmpp.Engine.Types.{SaslMechanism, SaslHandler}
use txmpp.Jid.{Jid, JidData}
use txmpp.Xml.Element.{
  XmlElement, element, children, name, attributes, attr, find_attr, new_element_ns, add_attr,
  add_text, append_text, body_text, end, with_children, set_in,
}
use txmpp.Xml.QName.{QName, qn, qname_eq, qname_eq_refl}

-- Jid::node
abbrev pub node : Jid → Bytes
node none = []
node (some d) = d.node_name

-- What both mechanisms encode: a name and a secret, each behind a null.
unfoldable pub credential : Bytes → Bytes → Bytes
credential username secret = (0 ∷ username) ++ (0 ∷ secret)

-- SaslMechanism::HandleSaslChallenge, which neither mechanism overrides.
abbrev pub abort_challenge : XmlElement → Option XmlElement
abort_challenge challenge = some (new_element_ns qn_sasl_abort true)

-- SaslPlainMechanism::StartSaslAuth
unfoldable pub start_plain : Jid → Bytes → XmlElement
unfolding encode_from_array credential add_attr add_text
start_plain user_jid password =
    add_text (encode_from_array (credential (node user_jid) password))
      (add_attr qn_mechanism (codes "PLAIN") (new_element_ns qn_sasl_auth true))

abbrev pub plain_mechanism : Jid → Bytes → SaslMechanism
plain_mechanism user_jid password = record {
  start_sasl_auth = some (start_plain user_jid password);
  handle_sasl_challenge = abort_challenge;
}

abbrev pub qn_service : QName
qn_service = qn (codes "http://www.google.com/talk/protocol/auth") (codes "service")

-- SaslCookieMechanism::StartSaslAuth; the constructor with three arguments gives no service.
unfoldable pub start_cookie : Bytes → Bytes → Bytes → Bytes → XmlElement
unfolding encode_from_array credential add_attr add_text is_empty
start_cookie mechanism username cookie token_service =
    let el = add_attr qn_mechanism mechanism (new_element_ns qn_sasl_auth true) in
    add_text (encode_from_array (credential username cookie))
      (if not (is_empty token_service) then add_attr qn_service token_service el else el)

abbrev pub cookie_mechanism : Bytes → Bytes → Bytes → Bytes → SaslMechanism
cookie_mechanism mechanism username cookie token_service = record {
  start_sasl_auth = some (start_cookie mechanism username cookie token_service);
  handle_sasl_challenge = abort_challenge;
}

-- std::find
unfoldable pub offers : Bytes → List Bytes → Bool
unfolding beq
offers mechanism [] = false
offers mechanism (m ∷ ms) = beq m mechanism || offers mechanism ms

unfoldable pub choose_best_sasl_mechanism : Bool → List Bytes → Bool → Bytes
unfolding offers
choose_best_sasl_mechanism allow_plain mechanisms encrypted =
    if not encrypted && not allow_plain
    then []
    else if not (offers (codes "PLAIN") mechanisms)
    then []
    else codes "PLAIN"

unfoldable pub create_sasl_mechanism : Jid → Bytes → Bytes → Option SaslMechanism
unfolding start_plain
create_sasl_mechanism jid password mechanism =
    if beq mechanism (codes "PLAIN") then some (plain_mechanism jid password) else none

-- PlainSaslHandler
abbrev pub plain_sasl_handler : Jid → Bytes → Bool → SaslHandler
plain_sasl_handler jid password allow_plain = record {
  choose_best_sasl_mechanism = choose_best_sasl_mechanism allow_plain;
  create_sasl_mechanism = create_sasl_mechanism jid password;
}

-- ===== src/Engine/Iq.antt =====
-- Requests and their answers (xmppengineimpl_iq.cc). A cookie is a number given out in turn, which
-- stands for the address of the entry.
pub mod Answers
pub mod Errors
use txmpp.Common.{
  ℕ, ◌+◌, Bool, true, false, not, ◌&&◌, ◌||◌, List, [], ◌∷◌, ◌++◌, Option, none, some, Bytes, codes,
  beq, is_empty, ◌>>=◌, ◌==◌, if◌then◌else◌,
}
use txmpp.Engine.Internal.{call}
use txmpp.Engine.Names.{
  ns_stanza, qn_iq, qn_error, qn_stanza_text, qn_to, qn_from, qn_type, qn_id, qn_code,
}
use txmpp.Engine.Session.{send_stanza}
use txmpp.Engine.Types.{
  Engine, IqEntry, ReturnStatus, return_ok, return_badargument, return_badstate, iq_response,
  is_closed,
}
use txmpp.Xml.Element.{
  XmlAttr, XmlElement, Children, end, text, child, name, attributes, children, attr, has_attr,
  new_element, new_element_ns, add_attr, add_attr_at, add_element, add_element_at, add_text,
}
use txmpp.Xml.QName.{QName, qn, qname_eq}

-- XmppStanzaError
pub data StanzaError : Type 0 where
  bad_request conflict feature_not_implemented forbidden gone internal_server_error : StanzaError
  item_not_found jid_malformed not_acceptable not_allowed payment_required : StanzaError
  recipient_unavailable redirect registration_required server_not_found server_timeout : StanzaError
  resource_constraint service_unavailable subscription_required undefined_condition : StanzaError
  unexpected_request : StanzaError

-- A null handler or element is none; the cookie is stored where the flag asks for it.
abbrev registered : XmlElement → ℕ → Engine → Engine
registered x handler e = record e {
  iq_entries =
      e.iq_entries
      ++ record { cookie = e.next_cookie; id = attr qn_id x; to = attr qn_to x; handler = handler }
        ∷ [];
  next_cookie = e.next_cookie + 1;
}

abbrev is_request : XmlElement → Bool
is_request x =
    qname_eq (name x) qn_iq
    && (beq (attr qn_type x) (codes "get") || beq (attr qn_type x) (codes "set"))
    && has_attr qn_id x

-- The status, the cookie that is stored on success, and the engine.
unfoldable pub send_iq : Option XmlElement → Option ℕ → Engine → ReturnStatus × Option ℕ × Engine
send_iq x handler e = if is_closed e.state then (return_badstate, none, e) else elim handler [
  | none ↦ (return_badargument, none, e)
  | some h ↦ elim x [
    | none ↦ (return_badargument, none, e)
    | some y ↦
        if not (is_request y)
        then (return_badargument, none, e)
        else (return_ok, some e.next_cookie, (send_stanza y (registered y h e)).1)
  ]
]

-- The entry with the cookie, and the entries without it.
unfoldable pub take_cookie : ℕ → List IqEntry → Option (IqEntry × List IqEntry)
take_cookie c [] = none
take_cookie c (i ∷ is) =
    let rest = take_cookie c is in
    if i.cookie == c then some (i, is) else rest >>= λ r. some (r.0, i ∷ r.1)

abbrev without_entry : Engine → Option (IqEntry × List IqEntry) → ReturnStatus × Option ℕ × Engine
without_entry e none = (return_badargument, none, e)
without_entry e (some (i, rest)) = (return_ok, some i.handler, record e { iq_entries = rest })

-- The status, the handler, and the engine.
unfoldable pub remove_iq_handler : ℕ → Engine → ReturnStatus × Option ℕ × Engine
unfolding take_cookie
remove_iq_handler c e = without_entry e (take_cookie c e.iq_entries)

unfoldable pub delete_iq_cookies : Engine → Engine
delete_iq_cookies e = record e { iq_entries = [] }

-- The name in NS_STANZA, the type and the code that AddErrorCode passes on.
abbrev pub error_data : StanzaError → Bytes × Bytes × Bytes
error_data bad_request = (codes "bad-request", codes "modify", codes "400")
error_data conflict = (codes "conflict", codes "cancel", codes "409")
error_data feature_not_implemented = (codes "feature-not-implemented", codes "cancel", codes "501")
error_data forbidden = (codes "forbidden", codes "auth", codes "403")
error_data gone = (codes "gone", codes "modify", codes "302")
error_data internal_server_error = (codes "internal-server-error", codes "wait", codes "500")
error_data item_not_found = (codes "item-not-found", codes "cancel", codes "404")
error_data jid_malformed = (codes "jid-malformed", codes "modify", codes "400")
error_data not_acceptable = (codes "not-acceptable", codes "cancel", codes "406")
error_data not_allowed = (codes "not-allowed", codes "cancel", codes "405")
error_data payment_required = (codes "payment-required", codes "auth", codes "402")
error_data recipient_unavailable = (codes "recipient-unavailable", codes "wait", codes "404")
error_data redirect = (codes "redirect", codes "modify", codes "302")
error_data registration_required = (codes "registration-required", codes "auth", codes "407")
error_data server_not_found = (codes "remote-server-not-found", codes "cancel", codes "404")
error_data server_timeout = (codes "remote-server-timeout", codes "wait", codes "502")
error_data resource_constraint = (codes "resource-constraint", codes "wait", codes "500")
error_data service_unavailable = (codes "service-unavailable", codes "cancel", codes "503")
error_data subscription_required = (codes "subscription-required", codes "auth", codes "407")
error_data undefined_condition = (codes "undefined-condition", codes "wait", codes "500")
error_data unexpected_request = (codes "unexpected-request", codes "wait", codes "400")

-- AecImpl; none is a depth at which no element is found.
unfoldable pub aec_impl : QName → Bytes → Bytes → XmlElement → Option XmlElement
aec_impl q type' code x =
    add_attr_at qn_code code 1 (add_element (new_element qn_error) x) >>= λ x1.
    add_attr_at qn_type type' 1 x1 >>= λ x2. add_element_at (new_element_ns q true) 1 x2

unfoldable pub add_error_code : StanzaError → XmlElement → Option XmlElement
unfolding aec_impl
add_error_code code =
    aec_impl (qn ns_stanza (error_data code).0) (error_data code).1 (error_data code).2

-- The loop that copies the attributes.
unfoldable pub copy_attrs : List XmlAttr → XmlElement → XmlElement
copy_attrs [] x = x
copy_attrs (a ∷ as') x = copy_attrs as' (
    if qname_eq a.name qn_to
    then x
    else if qname_eq a.name qn_from
    then add_attr qn_to a.value x
    else if qname_eq a.name qn_type
    then x
    else add_attr a.name a.value x)

-- The loop that copies the children.
unfoldable pub copy_children : Children → XmlElement → XmlElement
copy_children end x = x
copy_children (text t cs) x = copy_children cs (add_text t x)
copy_children (child y cs) x = copy_children cs (add_element y x)

abbrev pub error_text : Bytes → XmlElement → XmlElement
error_text t x =
    if not (is_empty t) then add_element (add_text t (new_element_ns qn_stanza_text true)) x else x

-- The element that SendStanzaError builds.
unfoldable pub error_element : XmlElement → StanzaError → Bytes → Option XmlElement
unfolding copy_attrs copy_children add_error_code
error_element original code t =
    add_error_code code (
      copy_children (children original) (
        copy_attrs (attributes original)
          (add_attr qn_type (codes "error") (new_element (name original)))))
    >>= λ x. some (error_text t x)

unfoldable pub send_stanza_error :
    XmlElement → StanzaError → Bytes → Engine → Option (ReturnStatus × Engine)
send_stanza_error original code t e =
    if is_closed e.state
    then some (return_badstate, e)
    else error_element original code t >>= λ x. some (return_ok, (send_stanza x e).1)

-- The loop of HandleIqResponse: the first entry with this id and address, and the others.
unfoldable pub take_entry : Bytes → Bytes → List IqEntry → Option (IqEntry × List IqEntry)
take_entry id from [] = none
take_entry id from (i ∷ is) =
    let rest = take_entry id from is in
    if beq i.id id && beq i.to from then some (i, is) else rest >>= λ r. some (r.0, i ∷ r.1)

abbrev pub answered : XmlElement → Engine → Option (IqEntry × List IqEntry) → Bool × Engine
answered x e none = (false, e)
answered x e (some (i, rest)) =
    (true, call (iq_response i.handler i.cookie x) (record e { iq_entries = rest }))

-- The iq may be an answer.
abbrev pub is_response : XmlElement → Bool
is_response x =
    qname_eq (name x) qn_iq
    && (beq (attr qn_type x) (codes "result") || beq (attr qn_type x) (codes "error"))
    && has_attr qn_id x

unfoldable pub handle_iq_response : XmlElement → Engine → Bool × Engine
unfolding take_entry
handle_iq_response x e =
    if not (is_response x)
    then (false, e)
    else answered x e (take_entry (attr qn_id x) (attr qn_from x) e.iq_entries)

-- ===== src/XmppTask/Answers.antt =====
-- Requests and their answers (MakeIq, MakeIqResult, MatchResponseIq and MatchStanzaFrom of
-- xmpptask.cc).
use txmpp.Common.{
  ℕ, Bool, true, false, ◌≡◌, ◌↔◌, ◌⊎◌, refl, ap, ◌∙◌, inl, [], ◌∷◌, none, some, Bytes, beq,
  beq_refl, is_empty, if◌then◌else◌, arith,
}
use txmpp.Engine.Login.{domain_name_of}
use txmpp.Engine.Names.{qn_iq, qn_to, qn_from, qn_type, qn_id}
use txmpp.Jid.{Jid, JidData, parse, str, jid_eq, bare_jid}
use txmpp.Jid.Order.{compare_jid-eq_iff}
use txmpp.Jid.Prep.{Ctype}
use txmpp.Jid.RoundTrip.{IsNormal, parse-str}
use txmpp.Xml.Element.{
  XmlElement, name, attr, has_attr, new_element, add_attr, set_attr, set_in, find_attr,
  with_attributes,
}
use txmpp.Xml.QName.{qname_eq, qname_eq_refl}
use txmpp.XmppTask.{make_iq, make_iq_result, match_stanza_from, match_response_iq}

eq_iff : (a b : Jid) → (jid_eq a b ≡ true) ↔ (a ≡ b)
eq_iff a b = (compare_jid-eq_iff a b).1

-- MatchStanzaFrom accepts a stanza just where it comes from the Jid that is asked for, or, where
-- none is asked for, from the domain or from the bare Jid of the client.
pub match_stanza_from_iff :
    (tolower : ℕ → ℕ) (me : Jid) (stanza : XmlElement) (to : Jid)
    → (match_stanza_from tolower me stanza to ≡ true) ↔ (
        (parse tolower (attr qn_from stanza) ≡ to)
        ⊎ ((to ≡ none)
            × ((parse tolower (attr qn_from stanza) ≡ parse tolower (domain_name_of me))
                ⊎ (parse tolower (attr qn_from stanza) ≡ bare_jid tolower me))))
unfolding match_stanza_from
match_stanza_from_iff tolower me stanza to =
    let from = parse tolower (attr qn_from stanza) in
    ground (
      arith,
      eq_iff from to,
      eq_iff to none,
      eq_iff from (parse tolower (domain_name_of me)),
      eq_iff from (bare_jid tolower me),
    )

-- How a server hands a stanza on: with the address of its sender.
abbrev pub delivered : Jid → XmlElement → XmlElement
delivered from stanza = set_attr qn_from (str from) stanza

-- The request, by its attributes.
abbrev asked : Bool → Bytes → Bytes → Bytes → XmlElement
asked untyped type to id =
    let rest = record { name = qn_to; value = to } ∷ record { name = qn_id; value = id } ∷ [] in
    with_attributes (if untyped then rest else record { name = qn_type; value = type } ∷ rest)
      (new_element qn_iq)

asked_lem :
    (untyped : Bool) (type id : Bytes) (to : JidData)
    → is_empty type ≡ untyped
    → is_empty id ≡ false
    → make_iq type (some to) id ≡ asked untyped type (str (some to)) id
unfolding make_iq add_attr
asked_lem true type id to e h = rw (make_iq, e, h) refl
asked_lem false type id to e h = rw (make_iq, e, h) refl

abbrev answer : Bool → Bytes → Bytes → Bytes → Bytes → XmlElement
answer untyped type from to id =
    set_attr qn_from to (make_iq_result (set_attr qn_from from (asked untyped type to id)))

answer_from :
    (untyped : Bool) (type from to id : Bytes)
    → (attr qn_from (answer untyped type from to id) ≡ to)
      × (attr qn_to (answer untyped type from to id) ≡ from)
      × (attr qn_id (answer untyped type from to id) ≡ id)
      × (name (answer untyped type from to id) ≡ qn_iq)
unfolding make_iq_result set_attr set_in add_attr attr find_attr has_attr qname_eq beq
answer_from true type from to id = (refl, refl, refl, refl)
answer_from false type from to id = (refl, refl, refl, refl)

accepts :
    (tolower : ℕ → ℕ) (client to : Jid) (stanza : XmlElement) (id : Bytes)
    → name stanza ≡ qn_iq
    → attr qn_id stanza ≡ id
    → parse tolower (attr qn_from stanza) ≡ to
    → match_response_iq tolower client stanza to id ≡ true
unfolding match_response_iq
accepts tolower client to stanza id n i f =
    rw (match_response_iq, n, i, qname_eq_refl qn_iq, beq_refl id)
      ((match_stanza_from_iff tolower client stanza to).1 (inl f))

-- A request that is made with MakeIq to the valid, prepared Jid `to` and with an id, delivered with
-- the address of its sender, answered with MakeIqResult, and delivered with the address that it was
-- sent to, is taken by MatchResponseIq for that address and that id, and is addressed to the sender.
pub match_response_iq-make_iq :
    (ct : Ctype) (type id : Bytes) (me to : JidData) (client : Jid)
    → IsNormal ct.tolower to
    → is_empty id ≡ false
    → let request = delivered (some me) (make_iq type (some to) id) in
      let answer = delivered (some to) (make_iq_result request) in
      (match_response_iq ct.tolower client answer (some to) id ≡ true)
      × (attr qn_to answer ≡ str (some me))
match_response_iq-make_iq ct type id me to client normal has_id =
    let (f, t, i, n) = answer_from (is_empty type) type (str (some me)) (str (some to)) id in
    rw (asked_lem (is_empty type) type id to refl has_id) (
      accepts ct.tolower client (some to) _ id n i
          (ap (parse ct.tolower) f ∙ parse-str ct to normal),
      t,
    )

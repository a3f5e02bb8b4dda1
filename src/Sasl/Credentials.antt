-- ===== src/Sasl/Credentials.antt =====
-- What the SASL mechanisms and their handler give away (saslplainmechanism.h,
-- saslcookiemechanism.h, plainsaslhandler.h).
use txmpp.Base64.{encode_from_array, decode_from_array, do_strict}
use txmpp.Base64.RoundTrip.{is_byte, decode_from_array-encode_from_array}
use txmpp.Common.{
  true, ◌≡◌, refl, sym, ◌∙◌, inl, inr, [], ◌∷◌, some, Bytes, codes, beq, is_empty, length, AllTrue,
  cons, AllTrue-append, arith, Bool-cases,
}
use txmpp.Engine.Names.{qn_sasl_auth, qn_mechanism}
use txmpp.Jid.{Jid}
use txmpp.Xml.Element.{
  XmlElement, element, children, name, attr, find_attr, new_element_ns, add_attr, add_text,
  append_text, body_text, end,
}
use txmpp.Xml.QName.{QName, qname_eq}
use txmpp.Sasl.{node, credential, qn_service, start_plain, start_cookie}

credential-AllTrue :
    {username secret : Bytes}
    → AllTrue is_byte username
    → AllTrue is_byte secret
    → AllTrue is_byte (credential username secret)
unfolding credential
credential-AllTrue {secret} h k = AllTrue-append (0 ∷ secret) (cons refl h) (cons refl k)

-- An element without children, whose text becomes the encoding of a credential.
body_text-credential :
    (username secret : Bytes) (el : XmlElement)
    → children el ≡ end
    → body_text (add_text (encode_from_array (credential username secret)) el)
      ≡ encode_from_array (credential username secret)
unfolding body_text add_text append_text encode_from_array credential is_empty
body_text-credential [] [] (element q attrs cs cdata) h = rw h refl
body_text-credential [] (_ ∷ _) (element q attrs cs cdata) h = rw h refl
body_text-credential (_ ∷ []) secret (element q attrs cs cdata) h = rw h refl
body_text-credential (_ ∷ _ ∷ _) secret (element q attrs cs cdata) h = rw h refl

abbrev pub Decoded : XmlElement → Bytes → Bytes → Type 0
Decoded x username secret =
    decode_from_array do_strict (body_text x)
    ≡ some (true, credential username secret, length (body_text x))

Decoded-add_text :
    {username secret : Bytes} (el : XmlElement)
    → AllTrue is_byte username
    → AllTrue is_byte secret
    → children el ≡ end
    → Decoded (add_text (encode_from_array (credential username secret)) el) username secret
Decoded-add_text {username} {secret} el h k empty =
    rw (body_text-credential username secret el empty) (
      decode_from_array-encode_from_array do_strict (credential username secret) refl
        (credential-AllTrue h k))

name-add_text : (s : Bytes) (e : XmlElement) → name (add_text s e) ≡ name e
unfolding add_text
name-add_text s (element q attrs cs cdata) = ground arith

attr-add_text : (q : QName) (s : Bytes) (e : XmlElement) → attr q (add_text s e) ≡ attr q e
unfolding add_text attr
attr-add_text p s (element q attrs cs cdata) = elim (Bool-cases (is_empty s)) [
  | inl nothing ↦ rw nothing refl
  | inr something ↦ rw something refl
]

is_empty_lem : (s : Bytes) → is_empty s ≡ true → s ≡ []
unfolding is_empty
is_empty_lem [] h = refl
is_empty_lem (x ∷ s) h = absurd (ground arith)

cookie_attributes :
    (mechanism : Bytes)
    → let el = add_attr qn_mechanism mechanism (new_element_ns qn_sasl_auth true) in
      (name el ≡ qn_sasl_auth) × (attr qn_mechanism el ≡ mechanism) × (attr qn_service el ≡ [])
unfolding attr find_attr add_attr qname_eq beq
cookie_attributes mechanism = (refl, refl, refl)

service_attributes :
    (mechanism token_service : Bytes)
    → let el =
        add_attr qn_service token_service
          (add_attr qn_mechanism mechanism (new_element_ns qn_sasl_auth true)) in
      (name el ≡ qn_sasl_auth)
      × (attr qn_mechanism el ≡ mechanism)
      × (attr qn_service el ≡ token_service)
unfolding attr find_attr add_attr qname_eq beq
service_attributes mechanism token_service = (refl, refl, refl)

-- Let the name of the user and the password be bytes. What PLAIN starts with is an auth element for
-- PLAIN, and a server that decodes its text strictly gets the two, each behind a null.
pub start_plain_lem :
    (user_jid : Jid) (password : Bytes)
    → AllTrue is_byte (node user_jid)
    → AllTrue is_byte password
    → let x = start_plain user_jid password in
      (name x ≡ qn_sasl_auth)
      × (attr qn_mechanism x ≡ codes "PLAIN")
      × Decoded x (node user_jid) password
unfolding start_plain
start_plain_lem user_jid password h k =
    let el = add_attr qn_mechanism (codes "PLAIN") (new_element_ns qn_sasl_auth true) in
    let text = encode_from_array (credential (node user_jid) password) in
    let (named, chosen, service) = cookie_attributes (codes "PLAIN") in
    (
      name-add_text text el ∙ named,
      attr-add_text qn_mechanism text el ∙ chosen,
      Decoded-add_text el h k (unfold add_attr in refl),
    )

-- Let the name of the user and the cookie be bytes. What a cookie mechanism starts with is an auth
-- element for it, with the service, if there is one, and a server that decodes its text strictly
-- gets the two, each behind a null.
pub start_cookie_lem :
    (mechanism username cookie token_service : Bytes)
    → AllTrue is_byte username
    → AllTrue is_byte cookie
    → let x = start_cookie mechanism username cookie token_service in
      (name x ≡ qn_sasl_auth)
      × (attr qn_mechanism x ≡ mechanism)
      × (attr qn_service x ≡ token_service)
      × Decoded x username cookie
unfolding start_cookie
start_cookie_lem mechanism username cookie token_service h k =
    elim (Bool-cases (is_empty token_service)) [
      | inl nothing ↦
          let (named, chosen, service) = cookie_attributes mechanism in
          rw nothing (
            name-add_text text el ∙ named,
            attr-add_text qn_mechanism text el ∙ chosen,
            attr-add_text qn_service text el ∙ service ∙ sym (is_empty_lem token_service nothing),
            Decoded-add_text el h k (unfold add_attr in refl),
          )
      | inr something ↦
          let (named, chosen, service) = service_attributes mechanism token_service in
          rw something (
            name-add_text text served ∙ named,
            attr-add_text qn_mechanism text served ∙ chosen,
            attr-add_text qn_service text served ∙ service,
            Decoded-add_text served h k (unfold add_attr in refl),
          )
    ]
  where
    el : XmlElement
    el = add_attr qn_mechanism mechanism (new_element_ns qn_sasl_auth true)

    served : XmlElement
    served = add_attr qn_service token_service el

    text : Bytes
    text = encode_from_array (credential username cookie)

-- ===== src/Engine/Iq/Errors.antt =====
-- The element that SendStanzaError sends (xmppengineimpl_iq.cc).
use mathlib.Core.List.{append_assoc, append-nil}
use txmpp.Common.{
  Bool, true, false, ◌≡◌, refl, ap, sym, ◌∙◌, List, [], ◌∷◌, ◌++◌, some, Bytes, codes, is_empty,
  if◌then◌else◌, Bool-cases, inl, inr,
}
use txmpp.Engine.Iq.{
  error_text, StanzaError, aec_impl, add_error_code, copy_attrs, copy_children, error_element,
  error_data,
}
use txmpp.Engine.Names.{ns_stanza, qn_error, qn_code, qn_type, qn_to, qn_from, qn_stanza_text}
use txmpp.Xml.Element.{
  XmlAttr, XmlElement, Children, element, end, text, child, name, attributes, children, new_element,
  new_element_ns, add_attr, add_attr_at, add_element, add_element_at, add_text, append_child,
  append_text, at_depth,
}
use txmpp.Xml.Element.Contents.{elements, text_content, add-contents}
use txmpp.Xml.Element.Path.{at_depth-hole, child_IsHole, whole_IsHole}
use txmpp.Xml.QName.{QName, qn, qname_eq, qn_xmlns}

at_depth-add_element :
    (f : XmlElement → XmlElement) (x y : XmlElement)
    → at_depth 1 f (add_element x y) ≡ some (add_element (f x) y)
at_depth-add_element f x y =
    at_depth-hole 1 (λ z. add_element z y) f x (child_IsHole 0 (λ z. z) y whole_IsHole)

-- The error child, written out.
abbrev pub error_child : StanzaError → XmlElement
error_child code =
    let (q, type', number) = error_data code in
    element qn_error
      (record { name = qn_code; value = number } ∷ record { name = qn_type; value = type' } ∷ [])
      (child (new_element_ns (qn ns_stanza q) true) end) false

-- The attributes of the answer: "to" and "type" go, "from" turns into "to", the rest stays.
abbrev pub reply_attrs : List XmlAttr → List XmlAttr
reply_attrs [] = []
reply_attrs (a ∷ as') =
    let rest = reply_attrs as' in
    if qname_eq a.name qn_to
    then rest
    else if qname_eq a.name qn_from
    then record { name = qn_to; value = a.value } ∷ rest
    else if qname_eq a.name qn_type
    then rest
    else a ∷ rest

add_error_code_lem :
    (code : StanzaError) (x : XmlElement)
    → add_error_code code x ≡ some (add_element (error_child code) x)
unfolding add_error_code aec_impl add_attr_at add_element_at
add_error_code_lem code x =
    let (q, type', number) = error_data code in
    let e1 = add_attr qn_code number (new_element qn_error) in
    let e2 = add_attr qn_type type' e1 in
    rw
      (
        at_depth-add_element (add_attr qn_code number) (new_element qn_error) x,
        at_depth-add_element (add_attr qn_type type') e1 x,
        at_depth-add_element (add_element (new_element_ns (qn ns_stanza q) true)) e2 x,
      )
      (unfold add_attr add_element append_child in refl)

-- What two elements have in common when they differ in their children at most.
abbrev SameHead : XmlElement → XmlElement → Type 0
SameHead x y = (name x ≡ name y) × (attributes x ≡ attributes y)

SameHead-add_text : (t : Bytes) (x : XmlElement) → SameHead (add_text t x) x
unfolding add_text
SameHead-add_text [] x = (refl, refl)
SameHead-add_text (b ∷ t) (element q as' cs c) = (refl, refl)

SameHead-add_element : (y x : XmlElement) → SameHead (add_element y x) x
unfolding add_element
SameHead-add_element y (element q as' cs c) = (refl, refl)

SameHead-copy_children : (cs : Children) (x : XmlElement) → SameHead (copy_children cs x) x
unfolding copy_children
SameHead-copy_children end x = (refl, refl)
SameHead-copy_children (text t cs) x =
    let (n, a) = SameHead-copy_children cs (add_text t x) in
    let (n', a') = SameHead-add_text t x in (n ∙ n', a ∙ a')
SameHead-copy_children (child y cs) x =
    let (n, a) = SameHead-copy_children cs (add_element y x) in
    let (n', a') = SameHead-add_element y x in (n ∙ n', a ∙ a')

copy_children-contents :
    (cs : Children) (x : XmlElement)
    → (elements (children (copy_children cs x)) ≡ elements (children x) ++ elements cs)
      × (text_content (children (copy_children cs x))
          ≡ text_content (children x) ++ text_content cs)
unfolding copy_children
copy_children-contents end x =
    (sym (append-nil (elements (children x))), sym (append-nil (text_content (children x))))
copy_children-contents (text t cs) x =
    let (i, j) = copy_children-contents cs (add_text t x) in
    let (k, l, _, _) = add-contents t x x in
    (
      i ∙ ap (λ es. es ++ elements cs) l,
      j
          ∙ ap (λ s. s ++ text_content cs) k
          ∙ append_assoc (text_content (children x)) t (text_content cs),
    )
copy_children-contents (child y cs) x =
    let (i, j) = copy_children-contents cs (add_element y x) in
    let (_, _, k, l) = add-contents [] y x in
    (
      i
          ∙ ap (λ es. es ++ elements cs) l
          ∙ append_assoc (elements (children x)) (y ∷ []) (elements cs),
      j ∙ ap (λ s. s ++ text_content cs) k,
    )

copy_attrs-reply :
    (as' : List XmlAttr) (q : QName) (bs : List XmlAttr) (c : Bool)
    → copy_attrs as' (element q bs end c) ≡ element q (bs ++ reply_attrs as') end c
unfolding copy_attrs add_attr
copy_attrs-reply [] q bs c = ap (λ l. element q l end c) (sym (append-nil bs))
copy_attrs-reply (a ∷ as') q bs c =
    let pushed = λ (b : XmlAttr).
      copy_attrs-reply as' q (bs ++ b ∷ []) c
      ∙ ap (λ l. element q l end c) (append_assoc bs (b ∷ []) (reply_attrs as')) in
    elim (Bool-cases (qname_eq a.name qn_to)) [
      | inl to ↦ rw to (copy_attrs-reply as' q bs c)
      | inr not_to ↦ rw not_to (elim (Bool-cases (qname_eq a.name qn_from)) [
        | inl from ↦ rw from (pushed (record { name = qn_to; value = a.value }))
        | inr not_from ↦ rw not_from (elim (Bool-cases (qname_eq a.name qn_type)) [
          | inl typed ↦ rw typed (copy_attrs-reply as' q bs c)
          | inr not_typed ↦ rw not_typed (pushed a)
        ])
      ])
    ]

-- The text element, if there is one.
abbrev pub extra_element : Bytes → XmlElement
extra_element t =
    element qn_stanza_text (record { name = qn_xmlns; value = ns_stanza } ∷ []) (text t end) false

abbrev pub extra : Bytes → List XmlElement
extra t = if is_empty t then [] else extra_element t ∷ []

error_text_lem :
    (t : Bytes) (x : XmlElement)
    → SameHead (error_text t x) x
      × (elements (children (error_text t x)) ≡ elements (children x) ++ extra t)
      × (text_content (children (error_text t x)) ≡ text_content (children x))
unfolding add_text is_empty append_text
error_text_lem [] x = ((refl, refl), sym (append-nil (elements (children x))), refl)
error_text_lem (b ∷ t) x =
    let (_, _, k, l) = add-contents [] (extra_element (b ∷ t)) x in
    (SameHead-add_element (extra_element (b ∷ t)) x, l, k)

-- The error stanza is always built. It has the name of the original; the type "error" and the
-- attributes of the original, without its "to" and "type" and with its "from" as "to", and
-- so no "from"; the
-- original's elements, then the error child, then the text element where the text is not empty;
-- and the original's character data.
pub error_element_lem :
    (original : XmlElement) (code : StanzaError) (t : Bytes)
    → (x : XmlElement) × (error_element original code t ≡ some x)
      × (name x ≡ name original)
      × (attributes x
          ≡ record { name = qn_type; value = codes "error" } ∷ reply_attrs (attributes original))
      × (elements (children x) ≡ (elements (children original) ++ error_child code ∷ []) ++ extra t)
      × (text_content (children x) ≡ text_content (children original))
unfolding error_element add_attr
error_element_lem original code t =
    let typed : List XmlAttr = record { name = qn_type; value = codes "error" } ∷ [] in
    let base = element (name original) (typed ++ reply_attrs (attributes original)) end false in
    let copied = copy_children (children original) base in
    let refused = add_element (error_child code) copied in
    let attrs : copy_attrs (attributes original) (element (name original) typed end false) ≡ base =
      copy_attrs-reply (attributes original) (name original) typed false in
    let (n, a) = SameHead-copy_children (children original) base in
    let (es, cs) = copy_children-contents (children original) base in
    let (n', a') = SameHead-add_element (error_child code) copied in
    let (_, _, cs', es') = add-contents [] (error_child code) copied in
    let ((n'', a''), es'', cs'') = error_text_lem t refused in
    (
      error_text t refused,
      built attrs (add_error_code_lem code copied),
      n'' ∙ n' ∙ n,
      a'' ∙ a' ∙ a,
      es'' ∙ ap (λ l. l ++ extra t) (es' ∙ ap (λ l. l ++ error_child code ∷ []) es),
      cs'' ∙ cs' ∙ cs,
    )
  where
    built :
        {x y : XmlElement}
        → copy_attrs
            (attributes original)
            (add_attr qn_type (codes "error") (new_element (name original)))
          ≡ x
        → add_error_code code (copy_children (children original) x) ≡ some y
        → error_element original code t ≡ some (error_text t y)
    built h k = rw (h, k) refl

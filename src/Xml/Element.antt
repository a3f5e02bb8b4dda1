-- ===== src/Xml/Element.antt =====
-- XmlElement (xmlelement.h, xmlelement.cc). The chains of attributes and of children, each kept
-- by a first and a last pointer, are lists; a copy is the same value. InsertChildAfter and
-- RemoveChildAfter take a place in the chain by pointer and are not modelled by themselves.
-- Where the source follows a null pointer (a depth with no element to go down to) the result is
-- none.
pub mod Attrs
pub mod Contents
pub mod Path
use txmpp.Common.{
  ℕ, zero, suc, Bool, true, false, not, ◌&&◌, List, [], ◌∷◌, ◌++◌, Option, none, some, Bytes, beq,
  is_empty, if◌then◌else◌, ◌>>=◌,
}
use txmpp.Xml.QName.{QName, qname_eq, qn_empty, qn_xmlns}

-- XmlAttr
pub record XmlAttr : Type 0 where
  pub name : QName
  pub value : Bytes

-- XmlElement, and its chain of XmlChild: text nodes and elements.
mutual
  pub data XmlElement : Type 0 where
    element : QName → List XmlAttr → Children → Bool → XmlElement

  pub data Children : Type 0 where
    end : Children
    text : Bytes → Children → Children
    child : XmlElement → Children → Children

abbrev pub name : XmlElement → QName
name (element q attrs children cdata) = q

abbrev pub attributes : XmlElement → List XmlAttr
attributes (element q attrs children cdata) = attrs

abbrev pub children : XmlElement → Children
children (element q attrs cs cdata) = cs

abbrev pub is_cdata : XmlElement → Bool
is_cdata (element q attrs cs cdata) = cdata

abbrev pub with_attributes : List XmlAttr → XmlElement → XmlElement
with_attributes attrs' (element q attrs cs cdata) = element q attrs' cs cdata

abbrev pub with_children : Children → XmlElement → XmlElement
with_children cs' (element q attrs cs cdata) = element q attrs cs' cdata

-- XmlElement(name) and XmlElement(name, useDefaultNs)
abbrev pub new_element : QName → XmlElement
new_element q = element q [] end false

abbrev pub new_element_ns : QName → Bool → XmlElement
new_element_ns q use_default_ns =
    element q (if use_default_ns then record { name = qn_xmlns; value = q.namespace } ∷ [] else [])
      end false

-- Attr, HasAttr, SetAttr, ClearAttr and AddAttr, on the chain of attributes.
unfoldable pub find_attr : QName → List XmlAttr → Option Bytes
find_attr q [] = none
find_attr q (a ∷ as') = if qname_eq a.name q then some a.value else find_attr q as'

abbrev pub or_empty : Option Bytes → Bytes
or_empty none = []
or_empty (some v) = v

abbrev pub is_some {ℓ} : {A : Type ℓ} → Option A → Bool
is_some none = false
is_some (some a) = true

unfoldable pub attr : QName → XmlElement → Bytes
attr q e = or_empty (find_attr q (attributes e))

unfoldable pub has_attr : QName → XmlElement → Bool
has_attr q e = is_some (find_attr q (attributes e))

unfoldable pub set_in : QName → Bytes → List XmlAttr → List XmlAttr
set_in q v [] = record { name = q; value = v } ∷ []
set_in q v (a ∷ as') =
    if qname_eq a.name q then record a { value = v } ∷ as' else a ∷ set_in q v as'

unfoldable pub set_attr : QName → Bytes → XmlElement → XmlElement
unfolding set_in
set_attr q v e = with_attributes (set_in q v (attributes e)) e

unfoldable pub clear_in : QName → List XmlAttr → List XmlAttr
clear_in q [] = []
clear_in q (a ∷ as') = if qname_eq a.name q then as' else a ∷ clear_in q as'

unfoldable pub clear_attr : QName → XmlElement → XmlElement
unfolding clear_in
clear_attr q e = with_attributes (clear_in q (attributes e)) e

-- AddAttr appends; that the name is new is an assertion of the source.
unfoldable pub add_attr : QName → Bytes → XmlElement → XmlElement
add_attr q v e = with_attributes (attributes e ++ record { name = q; value = v } ∷ []) e

unfoldable pub clear_attributes : XmlElement → XmlElement
clear_attributes e = with_attributes [] e

-- The loops of FirstElement, FirstWithNamespace and FirstNamed, and of their Next companions: the
-- first element of a chain that passes a test, and the chain behind it.
unfoldable pub find_element : (XmlElement → Bool) → Children → Option (XmlElement × Children)
find_element p end = none
find_element p (text t cs) = find_element p cs
find_element p (child e cs) = if p e then some (e, cs) else find_element p cs

abbrev pub fst_of : Option (XmlElement × Children) → Option XmlElement
fst_of none = none
fst_of (some (e, cs)) = some e

unfoldable pub first_element : XmlElement → Option XmlElement
first_element e = fst_of (find_element (λ x. true) (children e))

unfoldable pub first_with_namespace : Bytes → XmlElement → Option XmlElement
first_with_namespace ns e = fst_of (find_element (λ x. beq (name x).namespace ns) (children e))

unfoldable pub first_named : QName → XmlElement → Option XmlElement
first_named q e = fst_of (find_element (λ x. qname_eq (name x) q) (children e))

unfoldable pub first_element_name : XmlElement → QName
unfolding first_element
first_element_name e = elim (first_element e) [ none ↦ qn_empty | some x ↦ name x ]

-- BodyText: the text of an only child that is a text node.
abbrev body_of : Children → Bytes
body_of (text t end) = t
body_of _ = []

unfoldable pub body_text : XmlElement → Bytes
body_text e = body_of (children e)

unfoldable pub text_named : QName → XmlElement → Bytes
unfolding first_named body_text
text_named q e = elim (first_named q e) [ none ↦ [] | some x ↦ body_text x ]

-- Appending behind the last child: AddElement, and AddText (with AddParsedText), which joins the
-- text of a last child that is a text node.
unfoldable pub append_child : XmlElement → Children → Children
append_child e end = child e end
append_child e (text t cs) = text t (append_child e cs)
append_child e (child x cs) = child x (append_child e cs)

unfoldable pub append_text : Bytes → Children → Children
append_text s end = text s end
append_text s (text t end) = text (t ++ s) end
append_text s (text t (text u cs)) = text t (append_text s (text u cs))
append_text s (text t (child x cs)) = text t (append_text s (child x cs))
append_text s (child x cs) = child x (append_text s cs)

unfoldable pub add_element : XmlElement → XmlElement → XmlElement
unfolding append_child
add_element x e = with_children (append_child x (children e)) e

unfoldable pub add_text : Bytes → XmlElement → XmlElement
unfolding append_text is_empty
add_text s e = if is_empty s then e else with_children (append_text s (children e)) e

unfoldable pub add_cdata_text : Bytes → XmlElement → XmlElement
unfolding add_text
add_cdata_text s (element q attrs cs cdata) = add_text s (element q attrs cs true)

unfoldable pub clear_children : XmlElement → XmlElement
clear_children e = with_children end e

-- SetBodyText, by its four cases.
abbrev set_body : Bytes → Children → XmlElement → XmlElement
set_body s end e = add_text s e
set_body s (text t end) e = with_children (text s end) e
set_body s _ e = add_text s (clear_children e)

unfoldable pub set_body_text : Bytes → XmlElement → XmlElement
unfolding add_text clear_children is_empty
set_body_text s e = if is_empty s then clear_children e else set_body s (children e) e

-- The forms with a depth go down by the last child, which must be an element each time.
unfoldable pub at_last : (XmlElement → Option XmlElement) → Children → Option Children
at_last f end = none
at_last f (text t end) = none
at_last f (text t (text u cs)) = at_last f (text u cs) >>= (λ r. some (text t r))
at_last f (text t (child x cs)) = at_last f (child x cs) >>= (λ r. some (text t r))
at_last f (child x end) = f x >>= (λ y. some (child y end))
at_last f (child x (text u cs)) = at_last f (text u cs) >>= (λ r. some (child x r))
at_last f (child x (child y cs)) = at_last f (child y cs) >>= (λ r. some (child x r))

unfoldable pub at_depth : ℕ → (XmlElement → XmlElement) → XmlElement → Option XmlElement
unfolding at_last
at_depth zero f e = some (f e)
at_depth (suc depth) f e =
    at_last (at_depth depth f) (children e) >>= (λ cs. some (with_children cs e))

unfoldable pub add_attr_at : QName → Bytes → ℕ → XmlElement → Option XmlElement
unfolding at_depth add_attr
add_attr_at q v depth = at_depth depth (add_attr q v)

unfoldable pub add_text_at : Bytes → ℕ → XmlElement → Option XmlElement
unfolding at_depth add_text
add_text_at s depth = at_depth depth (add_text s)

unfoldable pub add_element_at : XmlElement → ℕ → XmlElement → Option XmlElement
unfolding at_depth add_element
add_element_at x depth = at_depth depth (add_element x)

unfoldable pub remove_named : QName → Children → Children
remove_named q end = end
remove_named q (text t cs) = text t (remove_named q cs)
remove_named q (child e cs) =
    let rest = remove_named q cs in if qname_eq (name e) q then rest else child e rest

unfoldable pub clear_named_children : QName → XmlElement → XmlElement
unfolding remove_named
clear_named_children q e = with_children (remove_named q (children e)) e

-- FindOrAddNamedChild, as the element afterwards and the child that is returned.
unfoldable pub find_or_add_named_child : QName → XmlElement → XmlElement × XmlElement
unfolding first_named add_element
find_or_add_named_child q e = elim (first_named q e) [
  | some x ↦ (e, x)
  | none ↦ (add_element (new_element q) e, new_element q)
]

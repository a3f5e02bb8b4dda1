-- ===== src/Parser/Document.antt =====
-- What a document means, told without a state: which element a run of tags and text stands for in
-- a scope of namespaces, and which stanzas the inside of a stream holds.
use txmpp.Common.{Bool, true, false, not, ◌&&◌, ◌||◌, ◌≡◌, List, [], ◌∷◌, ◌++◌, Bytes, is_empty}
use txmpp.Parser.{Token, start_tag, end_tag, char_data, start_namespaces}
use txmpp.Xml.Element.{XmlElement, XmlAttr, Children, element, end, text, child}
use txmpp.Xml.NsStack.{XmlnsStack, push_frame, resolve_qname}
use txmpp.Xml.QName.{QName, qname_eq, qn_empty}

-- The attributes of a tag, with the names that a scope gives them.
abbrev pub attributes_of : List (Bytes × Bytes) → XmlnsStack → List XmlAttr
attributes_of [] st = []
attributes_of ((name, value) ∷ atts) st =
    record { name = resolve_qname name true st; value = value } ∷ attributes_of atts st

abbrev pub none_named : QName → List XmlAttr → Bool
none_named q [] = true
none_named q (a ∷ as') = not (qname_eq q a.name) && none_named q as'

-- Each name can be resolved, and no name in a namespace comes twice.
abbrev pub are_well_named : List XmlAttr → Bool
are_well_named [] = true
are_well_named (a ∷ as') =
    not (qname_eq a.name qn_empty)
    && (is_empty a.name.namespace || none_named a.name as')
    && are_well_named as'

abbrev pub is_well_named : Bytes → List (Bytes × Bytes) → XmlnsStack → Bool
is_well_named name atts st =
    not (qname_eq (resolve_qname name false st) qn_empty) && are_well_named (attributes_of atts st)

-- The element of a tag, with these children.
abbrev pub tagged : Bytes → List (Bytes × Bytes) → XmlnsStack → Children → XmlElement
tagged name atts st cs = element (resolve_qname name false st) (attributes_of atts st) cs false

-- What stands in an element: text and elements. As its children, text that stands side by side is
-- one node, and there is no node for empty text.
pub data Item : Type 0 where
  words : Bytes → Item
  nested : XmlElement → Item

abbrev pub before : Bytes → Children → Children
before [] cs = cs
before (c ∷ s) end = text (c ∷ s) end
before (c ∷ s) (text t cs) = text ((c ∷ s) ++ t) cs
before (c ∷ s) (child e cs) = text (c ∷ s) (child e cs)

abbrev pub content : List Item → Children
content [] = end
content (words s ∷ items) = before s (content items)
content (nested e ∷ items) = child e (content items)

-- Denotes st ts x: in the scope st the tags ts stand for the element x. Fills st ts items: in the
-- scope st they stand for these items.
mutual
  pub data Denotes : XmlnsStack → List Token → XmlElement → Type 0 where
    denotes :
        {st scope : XmlnsStack} {name : Bytes} {atts : List (Bytes × Bytes)} {items : List Item}
        {ts : List Token}
        → start_namespaces atts (push_frame st) ≡ (true, scope)
        → is_well_named name atts scope ≡ true
        → Fills scope ts items
        → Denotes st
            (start_tag name atts ∷ (ts ++ end_tag name ∷ []))
            (tagged name atts scope (content items))

  pub data Fills : XmlnsStack → List Token → List Item → Type 0 where
    filled : {st : XmlnsStack} → Fills st [] []
    with_text :
        {st : XmlnsStack} {items : List Item} {s : Bytes} {ts : List Token}
        → Fills st ts items
        → Fills st (char_data s ∷ ts) (words s ∷ items)
    with_child :
        {st : XmlnsStack} {items : List Item} {z : XmlElement} {us ts : List Token}
        → Denotes st us z
        → Fills st ts items
        → Fills st (us ++ ts) (nested z ∷ items)

-- The inside of a stream: stanzas, with text between them that nobody reads.
pub data Holds (st : XmlnsStack) : List Token → List XmlElement → Type 0 where
  nothing : Holds st [] []
  between :
      {s : Bytes} {ts : List Token} {xs : List XmlElement}
      → Holds st ts xs
      → Holds st (char_data s ∷ ts) xs
  then_stanza :
      {us ts : List Token} {x : XmlElement} {xs : List XmlElement}
      → Denotes st us x
      → Holds st ts xs
      → Holds st (us ++ ts) (x ∷ xs)

-- ===== src/Parser/Builder.antt =====
-- XmlBuilder (xmlbuilder.h, xmlbuilder.cc). The pointer to the element that is being built is the
-- number of steps from the root, each to the last child, and the null pointer is none; so it is
-- for the parents. A step where there is no element follows a dangling pointer: none.
use txmpp.Common.{
  ℕ, suc, Bool, true, false, ◌||◌, List, [], ◌∷◌, Option, none, some, Bytes, is_empty,
  if◌then◌else◌, ◌>>=◌,
}
use txmpp.Xml.Element.{
  XmlElement, children, new_element, add_attr, add_element, append_text, at_depth, with_children,
}
use txmpp.Xml.NsStack.{XmlnsStack, resolve_qname}
use txmpp.Xml.QName.{QName, qname_eq, qn_empty}

pub record XmlBuilder : Type 0 where
  pub current : Option ℕ
  pub root : Option XmlElement
  pub parents : List (Option ℕ)

abbrev pub new_builder : XmlBuilder
new_builder = record { current = none; root = none; parents = [] }

-- seenNonlocalAtts.count, by QName::Compare.
unfoldable pub seen : QName → List QName → Bool
seen q [] = false
seen q (r ∷ rs) = qname_eq r q || seen q rs

-- The loop of BuildElement. QN_EMPTY stands for a name that cannot be resolved.
unfoldable pub build_atts :
    List (Bytes × Bytes) → XmlnsStack → List QName → XmlElement → Option XmlElement
unfolding seen
build_atts [] st names x = some x
build_atts ((name, value) ∷ atts) st names x =
    let q = resolve_qname name true st in
    if qname_eq q qn_empty
    then none
    else if is_empty q.namespace
    then build_atts atts st names (add_attr q value x)
    else if seen q names
    then none
    else build_atts atts st (q ∷ names) (add_attr q value x)

unfoldable pub build_element : Bytes → List (Bytes × Bytes) → XmlnsStack → Option XmlElement
unfolding build_atts
build_element name atts st =
    let q = resolve_qname name false st in
    if qname_eq q qn_empty then none else build_atts atts st [] (new_element q)

-- AddParsedText
unfoldable pub add_parsed_text : Bytes → XmlElement → XmlElement
unfolding append_text
add_parsed_text s x = if is_empty s then x else with_children (append_text s (children x)) x

-- A change of the element that is being built.
abbrev pub change : (XmlElement → XmlElement) → ℕ → XmlBuilder → Option XmlBuilder
change f n b = b.root >>= λ r. at_depth n f r >>= λ r'. some (record b { root = some r' })

abbrev start_in : XmlElement → XmlBuilder → Option ℕ → Option XmlBuilder
start_in x b none = some (record b { current = some 0; root = some x; parents = none ∷ b.parents })
start_in x b (some n) = change (add_element x) n b >>= λ b'.
    some (record b' { current = some (suc n); parents = some n ∷ b.parents })

abbrev started : XmlBuilder → Option XmlElement → Option (Option XmlBuilder)
started b none = some none
started b (some x) = start_in x b b.current >>= λ b'. some (some b')

-- StartElement; the inner none is an error that is raised.
unfoldable pub start_element :
    Bytes → List (Bytes × Bytes) → XmlnsStack → XmlBuilder → Option (Option XmlBuilder)
start_element name atts st b = started b (build_element name atts st)

-- EndElement
unfoldable pub end_element : XmlBuilder → Option XmlBuilder
end_element b = elim b.parents [
  | [] ↦ none
  | n ∷ ns ↦ some (record b { current = n; parents = ns })
]

-- CharacterData
unfoldable pub character_data : Bytes → XmlBuilder → Option XmlBuilder
unfolding add_parsed_text
character_data s b = elim b.current [ none ↦ some b | some n ↦ change (add_parsed_text s) n b ]

-- CreateElement: the root is given away. The callers read it at once, so none is a fault.
unfoldable pub create_element : XmlBuilder → Option (XmlElement × XmlBuilder)
create_element b = b.root >>= λ x. some (x, record b { root = none })

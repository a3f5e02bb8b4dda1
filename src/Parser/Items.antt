-- ===== src/Parser/Items.antt =====
-- What the builder makes of a tag and of what stands in an element (xmlbuilder.cc, xmlelement.cc),
-- against what they mean.
use mathlib.Core.List.{append-nil, append_assoc}
use txmpp.Common.{
  ℕ, Bool, true, false, not, ◌&&◌, ◌||◌, ◌≡◌, refl, ap, sym, ◌∙◌, arith, List, [], ◌∷◌, ◌++◌, some,
  Bytes, is_empty, Bool-cases, inl, inr,
}
use txmpp.Parser.Builder.{seen, build_atts, build_element, add_parsed_text}
use txmpp.Parser.Document.{
  attributes_of, none_named, are_well_named, is_well_named, tagged, Item, words, nested, before,
  content,
}
use txmpp.Xml.Element.{
  XmlElement, XmlAttr, Children, element, end, text, child, add_attr, add_element, append_child,
  append_text,
}
use txmpp.Xml.NsStack.{XmlnsStack, resolve_qname}
use txmpp.Xml.QName.{QName, qname_eq, qn_empty}

-- No name in a namespace has been seen.
abbrev are_new : List QName → List XmlAttr → Bool
are_new names [] = true
are_new names (a ∷ as') =
    (is_empty a.name.namespace || not (seen a.name names)) && are_new names as'

are_new-cons :
    (q : QName) (names : List QName) (as' : List XmlAttr)
    → are_new names as' ≡ true
    → none_named q as' ≡ true
    → are_new (q ∷ names) as' ≡ true
unfolding seen
are_new-cons q names [] h k = refl
are_new-cons q names (a ∷ as') h k =
    let rest = are_new-cons q names as' (ground (arith, h)) (ground (arith, k)) in
    ground (arith, rest, h, k)

build_atts_lem :
    (atts : List (Bytes × Bytes)) (st : XmlnsStack) (names : List QName) (q : QName)
    (bs : List XmlAttr)
    → are_well_named (attributes_of atts st) ≡ true
    → are_new names (attributes_of atts st) ≡ true
    → build_atts atts st names (element q bs end false)
      ≡ some (element q (bs ++ attributes_of atts st) end false)
unfolding build_atts add_attr
build_atts_lem [] st names q bs h k = rw (append-nil bs) refl
build_atts_lem ((name, value) ∷ atts) st names q bs h k =
    let r = resolve_qname name true st in
    let a : XmlAttr = record { name = r; value = value } in
    let known : qname_eq r qn_empty ≡ false = ground (arith, h) in
    let next = λ (names' : List QName) (new : are_new names' (attributes_of atts st) ≡ true).
      build_atts_lem atts st names' q (bs ++ a ∷ []) (ground (arith, h)) new
      ∙ ap (λ l. some (element q l end false)) (append_assoc bs (a ∷ []) (attributes_of atts st)) in
    elim (Bool-cases (is_empty r.namespace)) [
      | inl local ↦ rw (build_atts, known, local) (next names (ground (arith, k)))
      | inr global ↦
          let first : seen r names ≡ false = ground (arith, k, global) in
          rw (build_atts, known, global, first)
            (next (r ∷ names) (
              are_new-cons r names (attributes_of atts st) (ground (arith, k))
                (ground (arith, h, global))))
    ]

are_new-nil : (as' : List XmlAttr) → are_new [] as' ≡ true
unfolding seen
are_new-nil [] = refl
are_new-nil (a ∷ as') = ground (arith, are_new-nil as')

pub build_element-tagged :
    (name : Bytes) (atts : List (Bytes × Bytes)) (st : XmlnsStack)
    → is_well_named name atts st ≡ true
    → build_element name atts st ≡ some (tagged name atts st end)
unfolding build_element
build_element-tagged name atts st h =
    let known : qname_eq (resolve_qname name false st) qn_empty ≡ false = ground (arith, h) in
    rw (build_element, known)
      (build_atts_lem atts st [] (resolve_qname name false st) [] (ground (arith, h))
        (are_new-nil (attributes_of atts st)))

append_child-before :
    (e : XmlElement) (s : Bytes) (cs : Children)
    → append_child e (before s cs) ≡ before s (append_child e cs)
unfolding append_child
append_child-before e [] cs = refl
append_child-before e (c ∷ s) end = refl
append_child-before e (c ∷ s) (text t cs) = refl
append_child-before e (c ∷ s) (child x cs) = refl

append_text-before :
    (u s : Bytes) (cs : Children) → append_text u (before s cs) ≡ before s (append_text u cs)
unfolding append_text
append_text-before u [] cs = refl
append_text-before u (c ∷ s) end = refl
append_text-before u (c ∷ s) (text t end) = ap (λ v. text v end) (append_assoc (c ∷ s) t u)
append_text-before u (c ∷ s) (text t (text v cs)) = refl
append_text-before u (c ∷ s) (text t (child x cs)) = refl
append_text-before u (c ∷ s) (child x cs) = refl

content-nested :
    (e : XmlElement) (items : List Item)
    → append_child e (content items) ≡ content (items ++ nested e ∷ [])
unfolding append_child
content-nested e [] = refl
content-nested e (words s ∷ items) =
    append_child-before e s (content items) ∙ ap (before s) (content-nested e items)
content-nested e (nested x ∷ items) = ap (child x) (content-nested e items)

content-nothing : (items : List Item) → content (items ++ words [] ∷ []) ≡ content items
content-nothing [] = refl
content-nothing (words s ∷ items) = ap (before s) (content-nothing items)
content-nothing (nested x ∷ items) = ap (child x) (content-nothing items)

content-words :
    (x : ℕ) (s : Bytes) (items : List Item)
    → append_text (x ∷ s) (content items) ≡ content (items ++ words (x ∷ s) ∷ [])
unfolding append_text
content-words x s [] = refl
content-words x s (words t ∷ items) =
    append_text-before (x ∷ s) t (content items) ∙ ap (before t) (content-words x s items)
content-words x s (nested e ∷ items) = ap (child e) (content-words x s items)

-- The two ways in which the builder fills an element.
pub add_parsed_text-content :
    (s : Bytes) (q : QName) (bs : List XmlAttr) (items : List Item)
    → add_parsed_text s (element q bs (content items) false)
      ≡ element q bs (content (items ++ words s ∷ [])) false
unfolding add_parsed_text is_empty
add_parsed_text-content [] q bs items =
    ap (λ cs. element q bs cs false) (sym (content-nothing items))
add_parsed_text-content (x ∷ s) q bs items =
    ap (λ cs. element q bs cs false) (content-words x s items)

pub add_element-content :
    (e : XmlElement) (q : QName) (bs : List XmlAttr) (items : List Item)
    → add_element e (element q bs (content items) false)
      ≡ element q bs (content (items ++ nested e ∷ [])) false
unfolding add_element
add_element-content e q bs items = ap (λ cs. element q bs cs false) (content-nested e items)

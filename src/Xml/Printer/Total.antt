-- ===== src/Xml/Printer/Total.antt =====
-- PrintElement and PrintXml (xmlprinter.cc): the end of the recursion, and the namespace stack.
use txmpp.Common.{
  Bool, true, false, ◌≡◌, refl, sym, ap, ◌∙◌, List, [], ◌∷◌, ◌++◌, some, Bytes, inl, inr,
  Bool-cases, if◌then◌else◌, beq,
}
use txmpp.Xml.Element.{XmlAttr, XmlElement, Children, element, end, text, child}
use txmpp.Xml.NsStack.{XmlnsStack, empty, push_frame, pop_frame, add_xmlns}
use txmpp.Xml.NsStack.Scopes.{
  declare_all, declare_all-append, pop_frame-push_frame, add_new_prefix_total,
}
use txmpp.Xml.Printer.{
  declare_attrs, need_prefix, need_prefixes, open_element, print_element, print_children,
  declare_known, print_xml, write_tags, no_children, print_cdata_text,
}
use txmpp.Xml.Printer.Escape.{print_body_text}
use txmpp.Xml.QName.{QName, qname_eq, qn_xmlns, ns_xmlns}

-- The stacks that more declarations make of a stack.
abbrev Extends : XmlnsStack → XmlnsStack → Type 0
Extends st st' = (l : List (Bytes × Bytes)) × (st' ≡ declare_all l st)

Extends-trans : {a b c : XmlnsStack} → Extends a b → Extends b c → Extends a c
Extends-trans {a} (k, e) (l, f) =
    (l ++ k, f ∙ ap (declare_all l) e ∙ sym (declare_all-append l k a))

Extends-add : (p ns : Bytes) (st : XmlnsStack) → Extends st (add_xmlns p ns st)
Extends-add p ns st = ((p, ns) ∷ [], refl)

declare_attrs-Extends : (as' : List XmlAttr) (st : XmlnsStack) → Extends st (declare_attrs as' st)
unfolding declare_attrs
declare_attrs-Extends [] st = ([], refl)
declare_attrs-Extends (a ∷ as') st = elim (Bool-cases (qname_eq a.name qn_xmlns)) [
  | inl e ↦ rw e (Extends-trans (Extends-add [] a.value st) (declare_attrs-Extends as' _))
  | inr e ↦ rw e (elim (Bool-cases (beq a.name.namespace ns_xmlns)) [
    | inl e' ↦
        rw e'
          (Extends-trans (Extends-add a.name.local_part a.value st) (declare_attrs-Extends as' _))
    | inr e' ↦ rw e' (declare_attrs-Extends as' st)
  ])
]

need_prefix_total :
    (ns : Bytes) (a : Bool) (new : List (Bytes × Bytes)) (st : XmlnsStack)
    → (new' : List (Bytes × Bytes)) × (st' : XmlnsStack) × (need_prefix ns a (new, st)
        ≡ some (new', st'))
      × Extends st st'
unfolding need_prefix
need_prefix_total ns a new st =
    let (p, added, st', e, l, x) = add_new_prefix_total ns a st in
    ((if added then new ++ (p, ns) ∷ [] else new), st', rw e refl, (l, x))

need_prefixes_total :
    (as' : List XmlAttr) (new : List (Bytes × Bytes)) (st : XmlnsStack)
    → (new' : List (Bytes × Bytes)) × (st' : XmlnsStack) × (need_prefixes as' (new, st)
        ≡ some (new', st'))
      × Extends st st'
unfolding need_prefixes
need_prefixes_total [] new st = (new, st, refl, ([], refl))
need_prefixes_total (a ∷ as') new st =
    let (n1, s1, e1, x1) = need_prefix_total a.name.namespace true new st in
    let (n2, s2, e2, x2) = need_prefixes_total as' n1 s1 in (n2, s2, rw e1 e2, Extends-trans x1 x2)

open_element_total :
    (q : QName) (as' : List XmlAttr) (st : XmlnsStack)
    → (new : List (Bytes × Bytes)) × (st' : XmlnsStack) × (open_element q as' st ≡ some (new, st'))
      × Extends (push_frame st) st'
unfolding open_element
open_element_total q as' st =
    let (n1, s1, e1, x1) =
      need_prefix_total q.namespace false [] (declare_attrs as' (push_frame st)) in
    let (n2, s2, e2, x2) = need_prefixes_total as' n1 s1 in
    (
      n2,
      s2,
      rw e1 e2,
      Extends-trans (declare_attrs-Extends as' (push_frame st)) (Extends-trans x1 x2),
    )

mutual
  unfolding print_element

  element_total :
      (e : XmlElement) (st : XmlnsStack) → (out : Bytes) × (print_element e st ≡ some (out, st))
  element_total (element q as' cs cdata) st =
      let (new, st', opened, extends) = open_element_total q as' st in
      let (inner, printed) = children_total cs cdata st' in
      let closed : pop_frame st' ≡ some st =
        ap pop_frame extends.1 ∙ pop_frame-push_frame st extends.0 in
      (write_tags q as' new (no_children cs) inner st' st', rw (opened, printed, closed) refl)

  children_total :
      (cs : Children) (cdata : Bool) (st : XmlnsStack)
      → (out : Bytes) × (print_children cs cdata st ≡ some (out, st))
  children_total end cdata st = ([], refl)
  children_total (text t cs) cdata st =
      let (rest, printed) = children_total cs cdata st in
      ((if cdata then print_cdata_text t else print_body_text t) ++ rest, rw printed refl)
  children_total (child e cs) cdata st =
      let (first, printed) = element_total e st in
      let (rest, printed') = children_total cs cdata st in
      (first ++ rest, rw (printed, printed') refl)

-- Whatever the element and the declarations outside it, PrintElement prints it: the search for
-- new prefixes ends, no frame is missing, and the namespace stack is afterwards what it was. So
-- PrintXml prints every element under every list of known namespaces.
pub print_element_total :
    (e : XmlElement) (st : XmlnsStack) (known : List (Bytes × Bytes))
    → ((out : Bytes) × (print_element e st ≡ some (out, st)))
      × ((out : Bytes) × (print_xml e known ≡ some out))
unfolding print_xml
print_element_total e st known =
    let (out, printed) = element_total e (declare_known known empty) in
    (element_total e st, (out, rw printed refl))

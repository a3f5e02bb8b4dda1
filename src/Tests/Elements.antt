-- ===== src/Tests/Elements.antt =====
-- Elements, names, prefixes and printing (xmlelement.cc, qname.cc, xmlnsstack.cc, xmlprinter.cc).
use txmpp.Common.{
  beq, Bool, true, false, ◌≡◌, refl, ◌⊎◌, none, some, [], ◌∷◌, Bytes, codes, AllTrue, nil, cons,
}
use txmpp.Xml.Element.{
  XmlAttr, XmlElement, Children, element, end, text, child, attributes, children, attr, has_attr,
  set_attr, clear_attr, add_attr, body_text, set_body_text, add_element, add_text, first_named,
  clear_named_children, find_or_add_named_child,
}
use txmpp.Xml.Element.Attrs.{UniqueNames}
use txmpp.Xml.Element.Contents.{IsCoalesced}
use txmpp.Xml.NsStack.{
  XmlnsStack, empty, add_xmlns, ns_for_prefix, prefix_for_ns, format_qname, resolve_qname,
  add_new_prefix,
}
use txmpp.Xml.NsStack.Names.{PrefixesOk, resolve-format}
use txmpp.Xml.NsStack.{push_frame, pop_frame}
use txmpp.Xml.NsStack.Scopes.{declare_all, pop_frame-push_frame, add_new_prefix_lem}
use txmpp.Xml.Printer.{print_element, print_xml}
use txmpp.Xml.Printer.Total.{print_element_total}
use txmpp.Xml.QName.{QName, qn}
use txmpp.Xml.QName.Merged.{local_char}

abbrev to : QName
to = qn [] (codes "to")

abbrev body : QName
body = qn (codes "jabber:client") (codes "body")

-- <message to="a">hi<body/></message>
abbrev message : XmlElement
message =
    element (qn (codes "jabber:client") (codes "message"))
      (record { name = to; value = codes "a" } ∷ [])
      (text (codes "hi") (child (element body [] end false) end)) false

unique : UniqueNames (attributes message)
unfolding txmpp.Xml.Element.find_attr
unique = (refl, tt)

coalesced : IsCoalesced (children message)
coalesced = (λ e. cc, tt)

body_local : AllTrue local_char (codes "body")
body_local = cons refl (cons refl (cons refl (cons refl nil)))

abbrev scope : XmlnsStack
scope = add_xmlns (codes "cl") (codes "jabber:client") empty

abbrev plain : QName
plain = qn (codes "http://www.w3.org/XML/1998/namespace") (codes "l")

resolve-format_example : resolve_qname (format_qname plain true empty) true empty ≡ plain
unfolding beq
resolve-format_example =
    resolve-format plain true empty (cons refl nil) tt (unfold prefix_for_ns in refl)

add_new_prefix_lem_example :
    (p : Bytes) × (new : Bool) × (st' : XmlnsStack) × (add_new_prefix
        (codes "jabber:client")
        true
        empty
      ≡ some (p, new, st'))
    × (resolve_qname (format_qname body true st') true st' ≡ body)
    × PrefixesOk st'.xmlns
    × ((ns_for_prefix [] st' ≡ ns_for_prefix [] empty) ⊎ (ns_for_prefix [] empty ≡ none))
add_new_prefix_lem_example =
    add_new_prefix_lem body true empty [] (cons refl (cons refl (cons refl (cons refl nil)))) tt

pop_frame-push_frame_example :
    pop_frame (declare_all ((codes "x", codes "y") ∷ []) (push_frame scope)) ≡ some scope
pop_frame-push_frame_example = pop_frame-push_frame scope ((codes "x", codes "y") ∷ [])

print_element_total_example :
    ((out : Bytes) × (print_element message scope ≡ some (out, scope)))
    × ((out : Bytes) × (print_xml message [] ≡ some out))
print_element_total_example = print_element_total message scope []

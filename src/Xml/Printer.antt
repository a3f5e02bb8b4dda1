-- ===== src/Xml/Printer.antt =====
-- XmlPrinterImpl (xmlprinter.cc). What it writes to the stream is the bytes of the result, and its
-- namespace stack goes in and comes out. A fault of the stack is none.
pub mod Escape
pub mod ReadBack
pub mod Total
use txmpp.Common.{
  ℕ, Bool, true, false, List, [], ◌∷◌, ◌++◌, Option, none, some, Bytes, codes, beq, is_empty,
  if◌then◌else◌, ◌>>=◌,
}
use txmpp.Xml.Element.{XmlAttr, XmlElement, Children, element, end, text, child}
use txmpp.Xml.NsStack.{
  XmlnsStack, empty, push_frame, pop_frame, add_xmlns, add_new_prefix, format_qname,
}
use txmpp.Xml.Printer.Escape.{print_quoted_value, print_body_text}
use txmpp.Xml.QName.{QName, qname_eq, qn_xmlns, ns_xmlns}

-- The first pass over the attributes: the declarations that stand in the element.
unfoldable pub declare_attrs : List XmlAttr → XmlnsStack → XmlnsStack
declare_attrs [] st = st
declare_attrs (a ∷ as') st = declare_attrs as' (
    if qname_eq a.name qn_xmlns
    then add_xmlns [] a.value st
    else if beq a.name.namespace ns_xmlns
    then add_xmlns a.name.local_part a.value st
    else st)

-- One call of AddNewPrefix: the new declaration, if any, goes behind those of `new_xmlns`.
unfoldable pub need_prefix :
    Bytes → Bool → List (Bytes × Bytes) × XmlnsStack → Option (List (Bytes × Bytes) × XmlnsStack)
need_prefix ns is_attr (new_xmlns, st) = do
  (prefix, added, st') ← add_new_prefix ns is_attr st
  some (if added then new_xmlns ++ (prefix, ns) ∷ [] else new_xmlns, st')

-- The second pass, for the attributes.
unfoldable pub need_prefixes :
    List XmlAttr → List (Bytes × Bytes) × XmlnsStack → Option (List (Bytes × Bytes) × XmlnsStack)
need_prefixes [] acc = some acc
need_prefixes (a ∷ as') acc = do
  acc' ← need_prefix a.name.namespace true acc
  need_prefixes as' acc'

unfoldable pub print_attrs : List XmlAttr → XmlnsStack → Bytes
print_attrs [] st = []
print_attrs (a ∷ as') st =
    b' '
    ∷ (format_qname a.name true st
        ++ (codes "=\"" ++ (print_quoted_value a.value ++ (b'"' ∷ print_attrs as' st))))

-- The declarations that the second pass added.
unfoldable pub print_xmlns : List (Bytes × Bytes) → Bytes
print_xmlns [] = []
print_xmlns ((prefix, ns) ∷ l) =
    (if is_empty prefix then codes " xmlns=\"" else codes " xmlns:" ++ (prefix ++ codes "=\""))
    ++ (ns ++ (b'"' ∷ print_xmlns l))

unfoldable pub print_cdata_text : Bytes → Bytes
print_cdata_text t = codes "<![CDATA[" ++ (t ++ codes "]]>")

abbrev pub no_children : Children → Bool
no_children end = true
no_children _ = false

-- The stack in which an element's tag is printed, and the declarations to print in it.
unfoldable pub open_element :
    QName → List XmlAttr → XmlnsStack → Option (List (Bytes × Bytes) × XmlnsStack)
open_element q attrs st = do
  acc ← need_prefix q.namespace false ([], declare_attrs attrs (push_frame st))
  need_prefixes attrs acc

-- The start tag, what the children printed, and the end tag. The stack that the children leave
-- serves for the end tag.
unfoldable pub write_tags :
    QName → List XmlAttr → List (Bytes × Bytes) → Bool → Bytes → XmlnsStack → XmlnsStack → Bytes
unfolding print_attrs print_xmlns
write_tags q attrs new_xmlns childless inner st st' =
    b'<'
    ∷ (format_qname q false st
        ++ (print_attrs attrs st
            ++ (print_xmlns new_xmlns
                ++ (if childless
                    then codes "/>"
                    else b'>'
                      ∷ (inner ++ (codes "</" ++ (format_qname q false st' ++ codes ">")))))))

unfoldable mutual
  unfolding open_element write_tags print_cdata_text

  pub print_element : XmlElement → XmlnsStack → Option (Bytes × XmlnsStack)
  print_element (element q attrs cs cdata) st = do
    (new_xmlns, st') ← open_element q attrs st
    (inner, st'') ← print_children cs cdata st'
    st''' ← pop_frame st''
    some (write_tags q attrs new_xmlns (no_children cs) inner st' st'', st''')

  pub print_children : Children → Bool → XmlnsStack → Option (Bytes × XmlnsStack)
  print_children end cdata st = some ([], st)
  print_children (text t cs) cdata st = do
    (rest, st') ← print_children cs cdata st
    some ((if cdata then print_cdata_text t else print_body_text t) ++ rest, st')
  print_children (child e cs) cdata st = do
    (first, st') ← print_element e st
    (rest, st'') ← print_children cs cdata st'
    some (first ++ rest, st'')

-- The constructor's loop over the namespaces that are declared outside.
unfoldable pub declare_known : List (Bytes × Bytes) → XmlnsStack → XmlnsStack
declare_known [] st = st
declare_known ((prefix, ns) ∷ l) st = declare_known l (add_xmlns prefix ns st)

-- XmlPrinter::PrintXml
unfoldable pub print_xml : XmlElement → List (Bytes × Bytes) → Option Bytes
unfolding declare_known
print_xml e known = print_element e (declare_known known empty) >>= (λ r. some r.0)

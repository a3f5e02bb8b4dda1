-- ===== src/Xml/NsStack.antt =====
-- XmlnsStack (xmlnsstack.cc), with ResolveQName of XmlParser::ParseContext (xmlparser.cc). The vector of alternating
-- prefixes and namespaces is a list of pairs, the last one first; the depth stack holds numbers
-- of pairs, where the source's sizes count each pair twice. A pop of an empty vector is none.
pub mod Suggest
pub mod Search
pub mod Names
pub mod Scopes
use txmpp.Common.{
  ℕ, zero, suc, ◌+◌, ◌-◌, Bool, true, false, not, ◌&&◌, ◌||◌, List, [], ◌∷◌, ◌++◌, Option, none,
  some, Bytes, codes, beq, ltb, ◌==◌, is_empty, length, drop, if◌then◌else◌, decimal, ◌>>=◌,
}
use txmpp.Xml.NsStack.Suggest.{suggest_prefix, is_xml_like}
use txmpp.Xml.QName.{QName, qn, qn_empty, ns_xml, ns_xmlns, c_str}

pub record XmlnsStack : Type 0 where
  pub xmlns : List (Bytes × Bytes)
  pub depths : List ℕ

abbrev pub empty : XmlnsStack
empty = record { xmlns = []; depths = [] }

unfoldable pub push_frame : XmlnsStack → XmlnsStack
push_frame st = record st { depths = length st.xmlns ∷ st.depths }

abbrev pop_to : XmlnsStack → List ℕ → Option XmlnsStack
pop_to st [] = none
pop_to st (prev ∷ rest) = some (record {
  xmlns = if ltb prev (length st.xmlns) then drop (length st.xmlns - prev) st.xmlns else st.xmlns;
  depths = rest;
})

unfoldable pub pop_frame : XmlnsStack → Option XmlnsStack
pop_frame st = pop_to st st.depths

unfoldable pub add_xmlns : Bytes → Bytes → XmlnsStack → XmlnsStack
add_xmlns prefix ns st = record st { xmlns = (prefix, ns) ∷ st.xmlns }

abbrev remove_first : XmlnsStack → List (Bytes × Bytes) → Option XmlnsStack
remove_first st [] = none
remove_first st (_ ∷ rest) = some (record st { xmlns = rest })

unfoldable pub remove_xmlns : XmlnsStack → Option XmlnsStack
remove_xmlns st = remove_first st st.xmlns

-- The loop of NsForPrefix, from the last declaration to the first.
unfoldable pub lookup_prefix : Bytes → List (Bytes × Bytes) → Option Bytes
lookup_prefix prefix [] = none
lookup_prefix prefix ((p, ns) ∷ rest) = if beq p prefix then some ns else lookup_prefix prefix rest

abbrev or_default : Bytes → Option Bytes → Option Bytes
or_default prefix (some ns) = some ns
or_default prefix none = if is_empty prefix then some [] else none

-- The answer for a prefix that begins with "xml" in any case.
abbrev reserved : Bytes → Option Bytes
reserved prefix =
    if beq prefix (codes "xml")
    then some ns_xml
    else if beq prefix (codes "xmlns")
    then some ns_xmlns
    else none

unfoldable pub ns_for_prefix : Bytes → XmlnsStack → Option Bytes
ns_for_prefix prefix st =
    if is_xml_like prefix
    then reserved prefix
    else or_default prefix (lookup_prefix prefix st.xmlns)

abbrev is_ns : Bytes → Option Bytes → Bool
is_ns ns none = false
is_ns ns (some match') = beq match' ns

unfoldable pub prefix_matches_ns : Bytes → Bytes → XmlnsStack → Bool
unfolding ns_for_prefix
prefix_matches_ns prefix ns st = is_ns ns (ns_for_prefix prefix st)

-- The loop of PrefixForNs.
unfoldable pub find_prefix : Bytes → Bool → XmlnsStack → List (Bytes × Bytes) → Bytes × Bool
find_prefix ns is_attr st [] = ([], false)
find_prefix ns is_attr st ((p, n) ∷ rest) =
    if beq n ns && (not is_attr || not (is_empty p)) && prefix_matches_ns p ns st
    then (p, true)
    else find_prefix ns is_attr st rest

unfoldable pub prefix_for_ns : Bytes → Bool → XmlnsStack → Bytes × Bool
unfolding find_prefix
prefix_for_ns ns is_attr st =
    if beq ns ns_xml
    then (codes "xml", true)
    else if beq ns ns_xmlns
    then (codes "xmlns", true)
    else if (if is_attr then is_empty ns else prefix_matches_ns [] ns st)
    then ([], true)
    else find_prefix ns is_attr st st.xmlns

unfoldable pub format_qname : QName → Bool → XmlnsStack → Bytes
format_qname name is_attr st =
    let prefix = (prefix_for_ns name.namespace is_attr st).0 in
    if is_empty prefix then name.local_part else prefix ++ (b':' ∷ name.local_part)

-- The loop of AddNewPrefix: `result` is tried, then `base` with the numeral of i, i + 1, …
unfoldable pub free_prefix : ℕ → Bytes → ℕ → Bytes → XmlnsStack → Option Bytes
free_prefix zero base i result st = none
free_prefix (suc fuel) base i result st = elim (ns_for_prefix result st) [
  | none ↦ some result
  | some _ ↦ free_prefix fuel base (i + 1) (base ++ decimal i) st
]

-- Each round but the last finds another declaration, so these rounds are enough.
abbrev pub enough : XmlnsStack → ℕ
enough st = suc (suc (length st.xmlns))

unfoldable pub add_new_prefix : Bytes → Bool → XmlnsStack → Option (Bytes × Bool × XmlnsStack)
add_new_prefix ns is_attr st = if (prefix_for_ns ns is_attr st).1 then some ([], false, st) else (do
  result ← free_prefix (enough st) (suggest_prefix ns) 2 (suggest_prefix ns) st
  some (result, true, add_xmlns result ns st))

-- ParseContext::ResolveQName: none is the null namespace, for which the source returns QN_EMPTY.
unfoldable pub split_first_colon : Bytes → Option (Bytes × Bytes)
split_first_colon [] = none
split_first_colon (c ∷ s) =
    let rest = split_first_colon s in
    if c == b':'
    then some ([], s)
    else elim rest [ none ↦ none | some (before, behind) ↦ some (c ∷ before, behind) ]

abbrev name_in : Bytes → Option Bytes → QName
name_in local none = qn_empty
name_in local (some ns) = qn ns local

abbrev resolve_split : Option (Bytes × Bytes) → Bytes → Bool → XmlnsStack → QName
resolve_split (some (prefix, local)) qname is_attr st = name_in local (ns_for_prefix prefix st)
resolve_split none qname is_attr st =
    if is_attr then qn [] qname else name_in qname (ns_for_prefix [] st)

-- The argument is a C string: it holds no NUL.
unfoldable pub resolve_qname : Bytes → Bool → XmlnsStack → QName
unfolding split_first_colon
resolve_qname qname is_attr st = resolve_split (split_first_colon qname) qname is_attr st

-- ===== src/Xml/QName.antt =====
-- QName (qname.cc): a namespace and a local part. The source interns the pair in a table; names
-- that share an entry have equal parts, so equality is that of the parts.
pub mod Merged
use txmpp.Common.{
  ℕ, suc, Bool, true, false, ◌&&◌, ◌≡◌, ◌↔◌, refl, arith, List, [], ◌∷◌, ◌++◌, Option, none, some,
  Bytes, codes, beq, beq_iff, compare_bytes, compare_bytes-eq_iff, Ordering, is_empty, split_last,
  ◌==◌, if◌then◌else◌,
}

pub record QName : Type 0 where
  pub namespace : Bytes
  pub local_part : Bytes

abbrev pub qn : Bytes → Bytes → QName
qn ns local = record { namespace = ns; local_part = local }

-- QName::operator==
unfoldable pub qname_eq : QName → QName → Bool
qname_eq a b = beq a.local_part b.local_part && beq a.namespace b.namespace

-- QName::Compare, by the sign of its result.
compare_qname : QName → QName → Ordering
compare_qname a b = elim (compare_bytes a.local_part b.local_part) [
  | Ordering.lt ↦ Ordering.lt
  | Ordering.gt ↦ Ordering.gt
  | Ordering.eq ↦ compare_bytes a.namespace b.namespace
]

pub qname_eq_iff : (a b : QName) → (qname_eq a b ≡ true) ↔ (a ≡ b)
unfolding qname_eq
qname_eq_iff a b =
    ground (arith, beq_iff a.local_part b.local_part, beq_iff a.namespace b.namespace)

-- The order agrees with equality.
compare_qname-eq_iff : (a b : QName) → (compare_qname a b ≡ Ordering.eq) ↔ (qname_eq a b ≡ true)
unfolding compare_qname
compare_qname-eq_iff a b = ground (
  arith,
  compare_bytes-eq_iff a.local_part b.local_part,
  compare_bytes-eq_iff a.namespace b.namespace,
  qname_eq_iff a b,
)

pub qname_eq_refl : (a : QName) → qname_eq a a ≡ true
qname_eq_refl a = (qname_eq_iff a a).1 refl

-- QN_EMPTY and QN_XMLNS of xmlelement.cc, and the constants of xmlconstants.cc.
abbrev pub qn_empty : QName
qn_empty = qn [] []

abbrev pub str_xmlns : Bytes
str_xmlns = codes "xmlns"

abbrev pub qn_xmlns : QName
qn_xmlns = qn [] str_xmlns

abbrev pub ns_xml : Bytes
ns_xml = codes "http://www.w3.org/XML/1998/namespace"

abbrev pub ns_xmlns : Bytes
ns_xmlns = codes "http://www.w3.org/2000/xmlns/"

-- QName_LocalPart and QName_Namespace, from the split at the last colon.
abbrev local_part_of : Option (Bytes × Bytes) → Bytes → Bytes
local_part_of none name = name
local_part_of (some (before, behind)) name = behind

abbrev namespace_of : Option (Bytes × Bytes) → Bytes
namespace_of none = []
namespace_of (some (before, behind)) = before

-- What a C string holds of a std::string: the bytes before the first NUL.
unfoldable pub c_str : Bytes → Bytes
c_str [] = []
c_str (c ∷ s) = if c == 0 then [] else c ∷ c_str s

-- QName(mergedOrLocal)
unfoldable pub of_merged : Bytes → QName
unfolding split_last
of_merged name =
    qn (namespace_of (split_last b':' name)) (c_str (local_part_of (split_last b':' name) name))

-- QName::Merged
unfoldable pub merged : QName → Bytes
merged q = if beq q.namespace [] then q.local_part else q.namespace ++ (b':' ∷ q.local_part)

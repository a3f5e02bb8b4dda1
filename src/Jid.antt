-- ===== src/Jid.antt =====
-- Jid (jid.h, jid.cc): construction, printing, comparison and hashing. The reference-counted
-- data pointer is an Option of the three parts: none is the null pointer. Characters are bytes.
pub mod Prep
pub mod Chars
pub mod Domain
pub mod RoundTrip
pub mod Order
pub mod Bare
use txmpp.Common.{
  ℕ, suc, ◌+◌, ◌-◌, ◌*◌, ◌%◌, ◌^◌, Bool, true, false, not, ◌&&◌, ◌||◌, List, [], ◌∷◌, ◌++◌, Option,
  none, some, Ordering, Bytes, codes, ltb, ◌==◌, if◌then◌else◌, length, take, drop, is_empty, beq,
  find_char, starts_with, compare_bytes, ◌>>=◌,
}
use Prep.{prep_node, prep_domain, prep_resource}

-- Jid::Data
pub record JidData : Type 0 where
  pub node_name : Bytes
  pub domain_name : Bytes
  pub resource_name : Bytes

abbrev pub Jid : Type 0
Jid = Option JidData

-- JID_EMPTY and Jid()
abbrev pub jid_empty : Jid
jid_empty = none

-- Jid(bool, string)
unfoldable pub special : Bool → Bytes → Jid
special is_special s =
    if is_special
    then some (record { node_name = s; domain_name = []; resource_name = [] })
    else none

-- Jid(node_name, domain_name, resource_name)
unfoldable pub from_parts : (ℕ → ℕ) → Bytes → Bytes → Bytes → Jid
from_parts tolower node_name domain_name resource_name = if is_empty domain_name then none else (do
  node ← prep_node tolower node_name
  domain ← prep_domain domain_name
  resource ← prep_resource resource_name
  some (record { node_name = node; domain_name = domain; resource_name = resource }))

-- The part behind the first slash.
abbrev pub resource_of : Option ℕ → Bytes → Bytes
resource_of none s = []
resource_of (some slash) s = drop (slash + 1) s

-- at < slash, where npos is above every index.
abbrev pub before : ℕ → Option ℕ → Bool
before at none = true
before at (some slash) = ltb at slash

-- The node's name and domain_begin.
abbrev pub split_node : Option ℕ → Option ℕ → Bytes → Bytes × ℕ
split_node none slash s = ([], 0)
split_node (some at) slash s = if before at slash then (take at s, at + 1) else ([], 0)

abbrev pub domain_length : Option ℕ → ℕ → Bytes → ℕ
domain_length none begin s = length s - begin
domain_length (some slash) begin s = slash - begin

-- The domain's name; three well-known names are taken from constants.
unfoldable pub domain_of : ℕ → ℕ → Bytes → Bytes
domain_of begin len s =
    if len == 9 && starts_with (codes "gmail.com") (drop begin s)
    then codes "gmail.com"
    else if len == 14 && starts_with (codes "googlemail.com") (drop begin s)
    then codes "googlemail.com"
    else if len == 10 && starts_with (codes "google.com") (drop begin s)
    then codes "google.com"
    else take len (drop begin s)

-- Jid(jid_string)
unfoldable pub parse : (ℕ → ℕ) → Bytes → Jid
parse tolower s =
    let slash = find_char b'/' s in
    let (node, begin) = split_node (find_char b'@' s) slash s in
    let domain = domain_of begin (domain_length slash begin s) s in
    if is_empty s then none else from_parts tolower node domain (resource_of slash s)

unfoldable pub is_valid : Jid → Bool
is_valid none = false
is_valid (some d) = not (is_empty d.domain_name)

abbrev str_data : JidData → Bytes
str_data d =
    (if is_empty d.node_name then d.domain_name else d.node_name ++ (b'@' ∷ d.domain_name))
    ++ (if is_empty d.resource_name then [] else b'/' ∷ d.resource_name)

-- Jid::Str
unfoldable pub str : Jid → Bytes
unfolding is_valid
str none = []
str (some d) = if not (is_valid (some d)) then [] else str_data d

-- Jid::Compare, by the sign of its result.
unfoldable pub compare_jid : Jid → Jid → Ordering
compare_jid none none = Ordering.eq
compare_jid none (some _) = Ordering.lt
compare_jid (some _) none = Ordering.gt
compare_jid (some a) (some b) = elim (compare_bytes a.node_name b.node_name) [
  | Ordering.lt ↦ Ordering.lt
  | Ordering.gt ↦ Ordering.gt
  | Ordering.eq ↦ elim (compare_bytes a.domain_name b.domain_name) [
    | Ordering.lt ↦ Ordering.lt
    | Ordering.gt ↦ Ordering.gt
    | Ordering.eq ↦ compare_bytes a.resource_name b.resource_name
  ]
]

abbrev is_eq : Ordering → Bool
is_eq Ordering.eq = true
is_eq _ = false

unfoldable pub is_full : Jid → Bool
unfolding is_valid
is_full none = false
is_full (some d) = is_valid (some d) && not (is_empty d.resource_name)

unfoldable pub is_bare : Jid → Bool
unfolding is_valid compare_jid
is_bare none = true
is_bare (some d) =
    if is_eq (compare_jid (some d) jid_empty)
    then true
    else is_valid (some d) && is_empty d.resource_name

-- Jid::BareJid, which builds the result with the validating constructor.
unfoldable pub bare_jid : (ℕ → ℕ) → Jid → Jid
unfolding is_full
bare_jid tolower none = none
bare_jid tolower (some d) =
    if not (is_valid (some d))
    then none
    else if not (is_full (some d))
    then some d
    else from_parts tolower d.node_name d.domain_name []

-- Equal data pointers have equal parts, so the pointer test adds only the null case.
unfoldable pub bare_equals : Jid → Jid → Bool
bare_equals none none = true
bare_equals (some a) (some b) = beq b.node_name a.node_name && beq b.domain_name a.domain_name
bare_equals _ _ = false

-- Jid::operator==
unfoldable pub jid_eq : Jid → Jid → Bool
jid_eq none none = true
jid_eq (some a) (some b) =
    beq b.node_name a.node_name
    && beq b.domain_name a.domain_name
    && beq b.resource_name a.resource_name
jid_eq _ _ = false

-- str[i] is a signed char, added to a uint32: a byte above 0x7F stands for its value less 256.
abbrev pub char_to_uint32 : ℕ → ℕ
char_to_uint32 c = if ltb c 0x80 then c else (c + (2 ^ 32 - 256)) % 2 ^ 32

-- One of the three loops of ComputeLameHash.
unfoldable pub hash_loop : ℕ → Bytes → ℕ
hash_loop hash [] = hash
hash_loop hash (c ∷ s) =
    hash_loop ((((hash * 4) % 2 ^ 32 + hash) % 2 ^ 32 + char_to_uint32 c) % 2 ^ 32) s

unfoldable pub compute_lame_hash : Jid → ℕ
unfolding hash_loop
compute_lame_hash none = 0
compute_lame_hash (some d) =
    hash_loop (hash_loop (hash_loop 0 d.node_name) d.domain_name) d.resource_name

-- ===== src/Xml/QName/Merged.antt =====
-- Merging a qualified name into one string and taking it apart again.
use txmpp.Common.{
  ℕ, Bool, ◌≡◌, refl, arith, inl, inr, [], ◌∷◌, ◌++◌, none, some, Bytes, beq, beq_iff, split_last,
  AllTrue, nil, cons, Bool-cases, differs, ◌&&◌,
}
use txmpp.Xml.QName.{QName, c_str, of_merged, merged}

abbrev pub local_char : ℕ → Bool
local_char c = differs b':' c && differs 0 c

split_none : {s : Bytes} → AllTrue local_char s → split_last b':' s ≡ none
unfolding split_last
split_none nil = refl
split_none (cons h t) = ground (arith, split_none t)

split-append :
    (ns : Bytes) {s : Bytes}
    → AllTrue local_char s
    → split_last b':' (ns ++ (b':' ∷ s)) ≡ some (ns, s)
unfolding split_last
split-append [] h = ground (arith, split_none h)
split-append (c ∷ ns) h = ground (arith, split-append ns h)

c_str_all : {s : Bytes} → AllTrue local_char s → c_str s ≡ s
unfolding c_str
c_str_all nil = refl
c_str_all (cons h t) = ground (arith, c_str_all t)

-- A name whose local part has no colon and no NUL is read back from its merged form, whatever its
-- namespace holds.
pub of_merged-merged : (q : QName) → AllTrue local_char q.local_part → of_merged (merged q) ≡ q
unfolding of_merged merged
of_merged-merged q h = elim (Bool-cases (beq q.namespace [])) [
  | inl e ↦ ground (arith, split_none h, c_str_all h, beq_iff q.namespace [])
  | inr e ↦ ground (arith, split-append q.namespace h, c_str_all h)
]

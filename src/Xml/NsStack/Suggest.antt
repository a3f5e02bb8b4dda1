-- ===== src/Xml/NsStack/Suggest.antt =====
-- SuggestPrefix (xmlnsstack.cc): a prefix made of the last letters of a namespace.
use mathlib.Core.List.{reverse, reverse-cons}
use txmpp.Common.{
  ℕ, zero, suc, ◌+◌, Bool, true, false, ◌&&◌, ◌||◌, ◌≡◌, refl, arith, [], ◌∷◌, Option, none, some,
  Bytes, codes, ltb, leb, ◌==◌, length, take, is_empty, starts_with, split_last, if◌then◌else◌,
  AllTrue, nil, cons, AllTrue-append, inl, inr, Bool-cases,
}

unfoldable pub is_ascii_letter : ℕ → Bool
is_ascii_letter ch = (leb b'a' ch && leb ch b'z') || (leb b'A' ch && leb ch b'Z')

unfoldable pub lower_char : ℕ → ℕ
lower_char c = if leb b'A' c && leb c b'Z' then c + 32 else c

unfoldable pub ascii_lower : Bytes → Bytes
ascii_lower [] = []
ascii_lower (c ∷ s) = lower_char c ∷ ascii_lower s

abbrev pub is_either : ℕ → ℕ → ℕ → Bool
is_either lower upper c = c == lower || c == upper

-- The test that opens NsForPrefix.
unfoldable pub is_xml_like : Bytes → Bool
is_xml_like (a ∷ b ∷ c ∷ _) =
    is_either b'x' b'X' a && is_either b'm' b'M' b && is_either b'l' b'L' c
is_xml_like _ = false

-- "len": the namespace without a short extension behind its last dot.
abbrev chop_split : Option (Bytes × Bytes) → Bytes → Bytes
chop_split none ns = ns
chop_split (some (before, behind)) ns = if leb (length behind + 1) 5 then before else ns

chop : Bytes → Bytes
chop ns = chop_split (split_last b'.' ns) ns

-- The two scans, over the text from its end: to a letter, then over the letters.
skip_to_letter : Bytes → Bytes
skip_to_letter [] = []
skip_to_letter (c ∷ s) = let rest = skip_to_letter s in if is_ascii_letter c then c ∷ s else rest

letters : Bytes → Bytes
letters [] = []
letters (c ∷ s) = let rest = letters s in if is_ascii_letter c then c ∷ rest else []

-- The last run of letters, or its first three if it has more than four.
abbrev shorten : Bytes → Bytes
shorten run = if ltb 4 (length run) then take 3 run else run

unfoldable pub last_letters : Bytes → Bytes
unfolding letters skip_to_letter
last_letters s = reverse (letters (skip_to_letter (reverse s)))

unfoldable pub suggest_prefix : Bytes → Bytes
unfolding chop last_letters ascii_lower
suggest_prefix ns =
    let run = last_letters (chop ns) in
    let candidate = ascii_lower (shorten run) in
    if is_empty run
    then codes "ns"
    else if starts_with (codes "xml") candidate
    then codes "ns"
    else candidate

unfoldable pub is_lower_letter : ℕ → Bool
is_lower_letter c = leb b'a' c && leb c b'z'

letters-AllTrue : (s : Bytes) → AllTrue is_ascii_letter (letters s)
unfolding letters
letters-AllTrue [] = nil
letters-AllTrue (c ∷ s) = elim (Bool-cases (is_ascii_letter c)) [
  | inl e ↦ rw e (cons e (letters-AllTrue s))
  | inr e ↦ rw e nil
]

AllTrue-reverse : {p : ℕ → Bool} {s : Bytes} → AllTrue p s → AllTrue p (reverse s)
AllTrue-reverse nil = nil
AllTrue-reverse (cons {x} {xs} h t) =
    rw (reverse-cons x xs) (AllTrue-append (x ∷ []) (AllTrue-reverse t) (cons h nil))

AllTrue-take : {p : ℕ → Bool} {s : Bytes} (n : ℕ) → AllTrue p s → AllTrue p (take n s)
AllTrue-take zero h = nil
AllTrue-take (suc n) nil = nil
AllTrue-take (suc n) (cons h t) = cons h (AllTrue-take n t)

shorten-AllTrue : {p : ℕ → Bool} {s : Bytes} → AllTrue p s → AllTrue p (shorten s)
shorten-AllTrue {p} {s} h = elim (Bool-cases (ltb 4 (length s))) [
  | inl e ↦ rw e (AllTrue-take 3 h)
  | inr e ↦ rw e h
]

lower_char-lower : (c : ℕ) → is_ascii_letter c ≡ true → is_lower_letter (lower_char c) ≡ true
unfolding is_ascii_letter is_lower_letter lower_char
lower_char-lower c h = ground arith

ascii_lower-AllTrue :
    {s : Bytes} → AllTrue is_ascii_letter s → AllTrue is_lower_letter (ascii_lower s)
unfolding ascii_lower
ascii_lower-AllTrue nil = nil
ascii_lower-AllTrue (cons {x} h t) = cons (lower_char-lower x h) (ascii_lower-AllTrue t)

-- In lower case only the text "xml" itself is taken for it.
lower-xml :
    {s : Bytes}
    → AllTrue is_lower_letter s
    → starts_with (codes "xml") s ≡ false
    → is_xml_like s ≡ false
unfolding is_xml_like starts_with is_lower_letter
lower-xml nil h = refl
lower-xml (cons a nil) h = refl
lower-xml (cons a (cons b nil)) h = refl
lower-xml (cons a (cons b (cons c t))) h = ground arith

nonempty-lower :
    (s : Bytes) → is_empty (shorten s) ≡ false → is_empty (ascii_lower (shorten s)) ≡ false
unfolding ascii_lower is_empty
nonempty-lower s h = elim-empty (shorten s) h
  where
    elim-empty : (r : Bytes) → is_empty r ≡ false → is_empty (ascii_lower r) ≡ false
    elim-empty [] k = k
    elim-empty (c ∷ r) k = refl

shorten-nonempty : (s : Bytes) → is_empty s ≡ false → is_empty (shorten s) ≡ false
unfolding is_empty
shorten-nonempty [] h = cc
shorten-nonempty (c ∷ s) h = ground arith

-- What the other modules use of a suggested prefix.
pub record IsBase (s : Bytes) : Type 0 where
  pub lower : AllTrue is_lower_letter s
  pub nonempty : is_empty s ≡ false
  pub not_xml : is_xml_like s ≡ false

ns_IsBase : IsBase (codes "ns")
unfolding is_lower_letter is_empty is_xml_like
ns_IsBase = record { lower = cons refl (cons refl nil); nonempty = refl; not_xml = refl }

pub suggest_prefix-IsBase : (ns : Bytes) → IsBase (suggest_prefix ns)
unfolding suggest_prefix
suggest_prefix-IsBase ns =
    let run = last_letters (chop ns) in
    let candidate = ascii_lower (shorten run) in
    let lower =
      ascii_lower-AllTrue (
        shorten-AllTrue (AllTrue-reverse (letters-AllTrue (skip_to_letter (reverse (chop ns)))))) in
    elim (Bool-cases (is_empty run)) [
      | inl e ↦ rw e ns_IsBase
      | inr e ↦ rw e (elim (Bool-cases (starts_with (codes "xml") candidate)) [
        | inl x ↦ rw x ns_IsBase
        | inr x ↦ rw x (record {
          lower = lower;
          nonempty = nonempty-lower run (shorten-nonempty run e);
          not_xml = lower-xml lower x;
        })
      ])
    ]

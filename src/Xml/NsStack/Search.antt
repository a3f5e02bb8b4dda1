-- ===== src/Xml/NsStack/Search.antt =====
-- The search of AddNewPrefix (xmlnsstack.cc): its candidates, and how many can be refused.
use mathlib.Core.List.{append-nil}
use txmpp.Common.{
  ℕ, zero, suc, ◌+◌, ◌≤◌, ◌<◌, true, false, ◌≡◌, ◌≢◌, refl, sym, ap, ◌∙◌, arith, List, [], ◌∷◌,
  ◌++◌, none, some, Bytes, beq, beq_iff, length, is_empty, if◌then◌else◌, AllTrue, nil, cons,
  AllTrue-append, AllTrue-mono, inl, inr, Bool-cases, Option-cases, decimal, is_digit,
  decimal-injective, decimal-AllTrue, decimal-nonempty, differs,
}
use txmpp.Xml.NsStack.{XmlnsStack, lookup_prefix, ns_for_prefix, free_prefix, enough}
use txmpp.Xml.NsStack.Suggest.{IsBase, is_xml_like, is_lower_letter}

-- A candidate of the search: the base with nothing, or with a numeral, behind it.
pub record IsCandidate (s : Bytes) : Type 0 where
  pub nonempty : is_empty s ≡ false
  pub not_xml : is_xml_like s ≡ false
  pub no_colon : AllTrue (differs b':') s

lower-no_colon : (c : ℕ) → is_lower_letter c ≡ true → differs b':' c ≡ true
unfolding is_lower_letter
lower-no_colon c h = ground arith

digit-no_colon : (c : ℕ) → is_digit c ≡ true → differs b':' c ≡ true
unfolding is_digit
digit-no_colon c h = ground arith

digits-not_xml :
    (b d : Bytes)
    → is_empty b ≡ false
    → is_xml_like b ≡ false
    → AllTrue is_digit d
    → is_xml_like (b ++ d) ≡ false
unfolding is_xml_like is_empty is_digit
digits-not_xml [] d e h k = cc
digits-not_xml (x ∷ []) d e h nil = refl
digits-not_xml (x ∷ []) d e h (cons p nil) = refl
digits-not_xml (x ∷ []) d e h (cons p (cons q t)) = ground arith
digits-not_xml (x ∷ y ∷ []) d e h nil = refl
digits-not_xml (x ∷ y ∷ []) d e h (cons p t) = ground arith
digits-not_xml (x ∷ y ∷ z ∷ b) d e h k = h

append-nonempty : (b d : Bytes) → is_empty b ≡ false → is_empty (b ++ d) ≡ false
unfolding is_empty
append-nonempty [] d h = cc
append-nonempty (x ∷ b) d h = refl

IsBase-IsCandidate : {b : Bytes} → IsBase b → IsCandidate b
IsBase-IsCandidate h = record {
  nonempty = h.nonempty;
  not_xml = h.not_xml;
  no_colon = AllTrue-mono lower-no_colon h.lower;
}

numbered-IsCandidate : {b : Bytes} (i : ℕ) → IsBase b → IsCandidate (b ++ decimal i)
numbered-IsCandidate {b} i h = record {
  nonempty = append-nonempty b (decimal i) h.nonempty;
  not_xml = digits-not_xml b (decimal i) h.nonempty h.not_xml (decimal-AllTrue i);
  no_colon =
      AllTrue-append (decimal i) (AllTrue-mono lower-no_colon h.lower)
        (AllTrue-mono digit-no_colon (decimal-AllTrue i));
}

-- For a candidate NsForPrefix is the loop alone.
pub candidate-lookup :
    (s : Bytes) (st : XmlnsStack) → IsCandidate s → ns_for_prefix s st ≡ lookup_prefix s st.xmlns
unfolding ns_for_prefix
candidate-lookup s st h = ground (arith, h.nonempty, h.not_xml)

-- The declarations with a prefix other than `s`.
without : Bytes → List (Bytes × Bytes) → List (Bytes × Bytes)
without s [] = []
without s ((p, ns) ∷ l) = let rest = without s l in if beq p s then rest else (p, ns) ∷ rest

length-without : (s : Bytes) (l : List (Bytes × Bytes)) → length (without s l) ≤ length l
unfolding without
length-without s [] = omega arith
length-without s ((p, ns) ∷ l) = ground (arith, length-without s l)

length-without-lt :
    (s : Bytes) (l : List (Bytes × Bytes)) {ns : Bytes}
    → lookup_prefix s l ≡ some ns
    → length (without s l) < length l
unfolding without lookup_prefix
length-without-lt s [] h = cc
length-without-lt s ((p, n) ∷ l) h = elim (Bool-cases (beq p s)) [
  | inl e ↦ rw e (ground (arith, length-without s l))
  | inr e ↦ rw e (omega (arith, length-without-lt s l (rw e at h)))
]

lookup-without :
    (s t : Bytes) (l : List (Bytes × Bytes))
    → s ≢ t
    → lookup_prefix t (without s l) ≡ lookup_prefix t l
unfolding without lookup_prefix
lookup-without s t [] ne = refl
lookup-without s t ((p, n) ∷ l) ne =
    ground (arith, beq_iff p s, beq_iff p t, lookup-without s t l ne)

append_left-injective : (b : Bytes) {x y : Bytes} → b ++ x ≡ b ++ y → x ≡ y
append_left-injective [] h = h
append_left-injective (c ∷ b) h = append_left-injective b (cc)

numbered-ne : (b : Bytes) (i j : ℕ) → i < j → b ++ decimal i ≢ b ++ decimal j
numbered-ne b i j lt e = absurd (omega (arith, decimal-injective i j (append_left-injective b e)))

base-ne : (b : Bytes) (j : ℕ) → b ≢ b ++ decimal j
unfolding is_empty
base-ne b j e =
    let k = append_left-injective b (append-nil b ∙ e) in cc (decimal-nonempty j, ap is_empty k)

-- `l` answers for the candidates from number `i` on as the stack does.
abbrev Agrees : XmlnsStack → Bytes → ℕ → List (Bytes × Bytes) → Type 0
Agrees st b i l =
    (j : ℕ) → i ≤ j → lookup_prefix (b ++ decimal j) st.xmlns ≡ lookup_prefix (b ++ decimal j) l

free_prefix_here :
    (fuel i : ℕ) (b r : Bytes) (st : XmlnsStack)
    → ns_for_prefix r st ≡ none
    → free_prefix (suc fuel) b i r st ≡ some r
unfolding free_prefix
free_prefix_here fuel i b r st h = ground arith

free_prefix_next :
    (fuel i : ℕ) (b r : Bytes) (st : XmlnsStack) {ns : Bytes}
    → ns_for_prefix r st ≡ some ns
    → free_prefix (suc fuel) b i r st ≡ free_prefix fuel b (i + 1) (b ++ decimal i) st
unfolding free_prefix
free_prefix_next fuel i b r st h = ground arith

-- The search from candidate number `i` on succeeds within as many rounds as `l` has declarations.
numbered_search :
    (fuel i : ℕ) (b : Bytes) (st : XmlnsStack) (l : List (Bytes × Bytes))
    → IsBase b
    → Agrees st b i l
    → length l < fuel
    → (r : Bytes) × (free_prefix fuel b (i + 1) (b ++ decimal i) st ≡ some r)
      × (ns_for_prefix r st ≡ none)
      × IsCandidate r
numbered_search zero i b st l h agrees lt = absurd (omega arith)
numbered_search (suc fuel) i b st l h agrees lt =
    let c = numbered-IsCandidate i h in
    let look = candidate-lookup (b ++ decimal i) st c in
    elim (Option-cases (lookup_prefix (b ++ decimal i) st.xmlns)) [
      | inl e ↦ (b ++ decimal i, free_prefix_here fuel (i + 1) b _ st (look ∙ e), look ∙ e, c)
      | inr (ns, e) ↦
          let (r, found, free, cand) =
            numbered_search fuel (i + 1) b st (without (b ++ decimal i) l) h
              (λ j le.
                agrees j (omega arith)
                ∙ sym (
                    lookup-without (b ++ decimal i) (b ++ decimal j) l
                      (numbered-ne b i j (omega arith))))
              (omega
                (arith, length-without-lt (b ++ decimal i) l (sym (agrees i (omega arith)) ∙ e))) in
          (r, free_prefix_next fuel (i + 1) b _ st (look ∙ e) ∙ found, free, cand)
    ]

-- From a base of lower-case letters that is not empty and does not begin with "xml", the whole
-- search ends within the rounds that AddNewPrefix is given, with a prefix that has
-- no namespace yet and may be
-- declared (not empty, not beginning with "xml", no colon).
pub free_prefix_total :
    (b : Bytes) (st : XmlnsStack)
    → IsBase b
    → (r : Bytes) × (free_prefix (enough st) b 2 b st ≡ some r)
      × (ns_for_prefix r st ≡ none)
      × IsCandidate r
free_prefix_total b st h =
    let c = IsBase-IsCandidate h in
    let look = candidate-lookup b st c in
    elim (Option-cases (lookup_prefix b st.xmlns)) [
      | inl e ↦ (b, free_prefix_here _ 2 b b st (look ∙ e), look ∙ e, c)
      | inr (ns, e) ↦
          let (r, found, free, cand) =
            numbered_search (suc (length st.xmlns)) 2 b st st.xmlns h (λ j le. refl)
              (omega arith) in
          (r, free_prefix_next _ 2 b b st (look ∙ e) ∙ found, free, cand)
    ]

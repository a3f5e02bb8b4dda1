-- ===== src/StringEncode/Cuts.antt =====
-- split and tokenize (stringencode.cc) against each other and against the fields joined again.
use mathlib.Core.List.{append-nil, append_assoc}
use txmpp.Common.{
  ℕ, Bool, true, false, ◌&&◌, ◌≡◌, ◌≢◌, refl, ap, sym, ◌∙◌, List, [], ◌∷◌, ◌++◌, inl, inr, Bytes,
  is_empty, differs, AllTrue, nil, cons, ◌==◌, ==_iff, if◌then◌else◌, Bool-cases, arith,
}
use txmpp.StringEncode.Fields.{split_from, split, push_field, tokenize_from, tokenize}

-- The fields with the delimiter between them.
abbrev pub joined : ℕ → List Bytes → Bytes
joined delimiter [] = []
joined delimiter (field ∷ []) = field
joined delimiter (field ∷ next ∷ fields) = field ++ delimiter ∷ joined delimiter (next ∷ fields)

-- A field without the delimiter.
abbrev pub lacks : ℕ → Bytes → Bool
lacks delimiter [] = true
lacks delimiter (c ∷ field) = differs delimiter c && lacks delimiter field

-- The fields that are not empty.
abbrev pub filled : List Bytes → List Bytes
filled [] = []
filled (field ∷ fields) = if is_empty field then filled fields else field ∷ filled fields

module _ (d : ℕ) where
  split_from_here :
      (field : Bytes) (c : ℕ) (s : Bytes)
      → (c == d) ≡ true
      → split_from d field (c ∷ s) ≡ field ∷ split_from d [] s
  unfolding split_from
  split_from_here field c s k = rw (split_from, k) refl

  split_from_on :
      (field : Bytes) (c : ℕ) (s : Bytes)
      → (c == d) ≡ false
      → split_from d field (c ∷ s) ≡ split_from d (field ++ c ∷ []) s
  unfolding split_from
  split_from_on field c s k = rw (split_from, k) refl

  cons_not_nil : {field : Bytes} {fields : List Bytes} → field ∷ fields ≢ []
  cons_not_nil e = cc

  split_from_nonempty : (field s : Bytes) → split_from d field s ≢ []
  unfolding split_from
  split_from_nonempty field [] e = cons_not_nil e
  split_from_nonempty field (c ∷ s) e = elim (Bool-cases (c == d)) [
    | inl k ↦ cons_not_nil (sym (split_from_here field c s k) ∙ e)
    | inr k ↦ split_from_nonempty (field ++ c ∷ []) s (sym (split_from_on field c s k) ∙ e)
  ]

  joined_cons :
      (field : Bytes) (fields : List Bytes)
      → fields ≢ []
      → joined d (field ∷ fields) ≡ field ++ d ∷ joined d fields
  joined_cons field [] h = absurd (h refl)
  joined_cons field (x ∷ fields) h = refl

  joined-split_from : (field s : Bytes) → joined d (split_from d field s) ≡ field ++ s
  unfolding split_from
  joined-split_from field [] = sym (append-nil field)
  joined-split_from field (c ∷ s) = elim (Bool-cases (c == d)) [
    | inl k ↦ rw (split_from_here field c s k) (
        joined_cons field (split_from d [] s) (split_from_nonempty [] s)
        ∙ ap (λ x. field ++ d ∷ x) (joined-split_from [] s)
        ∙ ap (λ x. field ++ x ∷ s) (sym ((==_iff c d).0 k)))
    | inr k ↦
        rw (split_from_on field c s k)
          (joined-split_from (field ++ c ∷ []) s ∙ append_assoc field (c ∷ []) s)
  ]

  lacks-append :
      (field : Bytes) (c : ℕ)
      → lacks d field ≡ true
      → (c == d) ≡ false
      → lacks d (field ++ c ∷ []) ≡ true
  lacks-append [] c h k = rw k refl
  lacks-append (x ∷ field) c h k = ground (arith, lacks-append field c, h, k)

  split_from-AllTrue :
      (field s : Bytes) → lacks d field ≡ true → AllTrue (lacks d) (split_from d field s)
  unfolding split_from
  split_from-AllTrue field [] h = cons h nil
  split_from-AllTrue field (c ∷ s) h = elim (Bool-cases (c == d)) [
    | inl k ↦ rw (split_from_here field c s k) (cons h (split_from-AllTrue [] s refl))
    | inr k ↦
        rw (split_from_on field c s k)
          (split_from-AllTrue (field ++ c ∷ []) s (lacks-append field c h k))
  ]

  tokenize_from_lem : (field s : Bytes) → tokenize_from d field s ≡ filled (split_from d field s)
  unfolding split_from tokenize_from push_field
  tokenize_from_lem field [] = refl
  tokenize_from_lem field (c ∷ s) = elim (Bool-cases (c == d)) [
    | inl k ↦ rw (split_from_here field c s k, tokenize_from, k, tokenize_from_lem [] s) refl
    | inr k ↦
        rw (split_from_on field c s k, tokenize_from, k, tokenize_from_lem (field ++ c ∷ []) s) refl
  ]

-- split cuts a string at every delimiter: the fields joined by the delimiter are the string, and
-- no field has a delimiter in it; tokenize gives those of the fields that are not empty, in order.
pub split-tokenize :
    (source : Bytes) (delimiter : ℕ)
    → (joined delimiter (split source delimiter) ≡ source)
      × AllTrue (lacks delimiter) (split source delimiter)
      × (tokenize source delimiter ≡ filled (split source delimiter))
unfolding split tokenize
split-tokenize s d =
    (joined-split_from d [] s, split_from-AllTrue d [] s refl, tokenize_from_lem d [] s)

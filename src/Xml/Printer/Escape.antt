-- ===== src/Xml/Printer/Escape.antt =====
-- PrintQuotedValue and PrintBodyText (xmlprinter.cc): chunks without special characters are copied
-- whole, and each special character is written as an entity.
use txmpp.Common.{
  ℕ, zero, suc, ◌≤◌, ◌<◌, Bool, true, false, ◌||◌, ◌≡◌, refl, sym, ap, ◌∙◌, arith, [], ◌∷◌, ◌++◌,
  Bytes, codes, ◌==◌, length, is_empty, if◌then◌else◌, inl, inr, ◌⊎◌, Bool-cases,
}

-- The members of "<>&\"" and of "<>&".
abbrev pub is_quoted_special : ℕ → Bool
is_quoted_special c = c == b'<' || c == b'>' || c == b'&' || c == b'"'

abbrev pub is_body_special : ℕ → Bool
is_body_special c = c == b'<' || c == b'>' || c == b'&'

-- The two switches; the one for body text has no case for the quote, which never reaches it.
unfoldable pub entity : ℕ → Bytes
entity c =
    if c == b'<'
    then codes "&lt;"
    else if c == b'>'
    then codes "&gt;"
    else if c == b'&'
    then codes "&amp;"
    else if c == b'"'
    then codes "&quot;"
    else []

-- find_first_of from `safe`, as the text before the character found and the text from it on.
unfoldable pub span_safe : (ℕ → Bool) → Bytes → Bytes × Bytes
span_safe special [] = ([], [])
span_safe special (c ∷ s) =
    let (chunk, rest) = span_safe special s in if special c then ([], c ∷ s) else (c ∷ chunk, rest)

-- The loop: a chunk, then an entity, until the text ends. Each round takes a character or ends.
unfoldable pub print_chunks : (ℕ → Bool) → ℕ → Bytes → Bytes
print_chunks special zero s = []
print_chunks special (suc fuel) s =
    let (chunk, rest) = span_safe special s in
    chunk ++ elim rest [
      | [] ↦ []
      | c ∷ after ↦ entity c ++ (if is_empty after then [] else print_chunks special fuel after)
    ]

unfoldable pub print_quoted_value : Bytes → Bytes
unfolding print_chunks span_safe entity
print_quoted_value s = print_chunks is_quoted_special (suc (length s)) s

unfoldable pub print_body_text : Bytes → Bytes
unfolding print_chunks span_safe entity
print_body_text s = print_chunks is_body_special (suc (length s)) s

pub escape_char : (ℕ → Bool) → ℕ → Bytes
escape_char special c = if special c then entity c else c ∷ []

pub escape_all : (ℕ → Bool) → Bytes → Bytes
escape_all special [] = []
escape_all special (c ∷ s) = escape_char special c ++ escape_all special s

pub escape_all-special :
    (special : ℕ → Bool) (c : ℕ) (s : Bytes)
    → special c ≡ true
    → escape_all special (c ∷ s) ≡ entity c ++ escape_all special s
unfolding escape_all escape_char
escape_all-special special c s h = rw h refl

pub escape_all-safe :
    (special : ℕ → Bool) (c : ℕ) (s : Bytes)
    → special c ≡ false
    → escape_all special (c ∷ s) ≡ c ∷ escape_all special s
unfolding escape_all escape_char
escape_all-safe special c s h = rw h refl

pub escape_all-nil : (special : ℕ → Bool) → escape_all special [] ≡ []
unfolding escape_all
escape_all-nil special = refl

-- What find_first_of leaves: a part that escaping copies, and the rest, no longer than the text.
pub span_safe-escape :
    (special : ℕ → Bool) (s : Bytes)
    → (escape_all special s ≡ (span_safe special s).0 ++ escape_all special (span_safe special s).1)
      × (length (span_safe special s).1 ≤ length s)
      × (((span_safe special s).1 ≡ [])
          ⊎ ((c : ℕ) × (after : Bytes) × ((span_safe special s).1 ≡ c ∷ after)
              × (special c ≡ true)))
unfolding span_safe
span_safe-escape special [] = (refl, omega arith, inl refl)
span_safe-escape special (c ∷ s) =
    let (e, l, r) = span_safe-escape special s in
    elim (Bool-cases (special c)) [
      | inl h ↦ rw h (refl, omega arith, inr (c, s, refl, h))
      | inr h ↦ rw h (escape_all-safe special c s h ∙ ap (◌∷◌ c) e, omega (arith, l), r)
    ]

pub last_chunk :
    (special : ℕ → Bool) (fuel : ℕ) (s : Bytes)
    → print_chunks special fuel s ≡ escape_all special s
    → (if is_empty s then [] else print_chunks special fuel s) ≡ escape_all special s
unfolding is_empty
last_chunk special fuel [] h = sym (escape_all-nil special)
last_chunk special fuel (c ∷ s) h = h

pub print_chunks-escape :
    (special : ℕ → Bool) (fuel : ℕ) (s : Bytes)
    → length s < fuel
    → print_chunks special fuel s ≡ escape_all special s
unfolding print_chunks
print_chunks-escape special zero s h = absurd (omega arith)
print_chunks-escape special (suc fuel) s h =
    let (e, l, r) = span_safe-escape special s in
    elim r [
      | inl none_left ↦ rw none_left (
          sym (
            e
            ∙ ap (◌++◌ (span_safe special s).0)
                (ap (escape_all special) none_left ∙ escape_all-nil special)))
      | inr (c, after, found, sp) ↦
          let shorter : length after < fuel = omega (arith, l, ap length found) in
          rw found (
            rw (last_chunk special fuel after (print_chunks-escape special fuel after shorter)) (
              sym (
                e
                ∙ ap (◌++◌ (span_safe special s).0)
                    (ap (escape_all special) found ∙ escape_all-special special c after sp))))
    ]

-- ===== src/StringEncode/HtmlPieces.antt =====
-- The pieces that html_encode writes, and what xml_decode makes of each (stringencode.cc).
use mathlib.Core.List.{append_assoc}
use txmpp.Common.{
  ℕ, suc, ◌+◌, ◌^◌, ◌≤◌, ◌<◌, Bool, true, false, [], ◌∷◌, ◌++◌, Option, none, some, Bytes, codes,
  length, length-append, drop-append, starts_with, decimal, is_digit, decimal-AllTrue,
  decimal-nonempty, is_empty, ltb, ◌==◌, if◌then◌else◌, arith, ◌≡◌, refl, sym, ap, ◌∙◌, inl, inr,
  Bool-cases, AllTrue, cons, false_not_true,
}
use txmpp.StringEncode.{is_unsafe, xml_unsafe}
use txmpp.StringEncode.Characters.{
  utf8_decode-utf8_encode, utf8_encode_room, utf8_encode_one, utf8_encode_short,
}
use txmpp.StringEncode.Entities.{
  html_escape, html_read, numbered, numeric_entity, Strtoul, numeric, entity_at, xml_read,
}
use txmpp.StringEncode.ReadBack.{ReadsBack}
use txmpp.StringEncode.Utf8.{utf8_decode, utf8_encode}
use txmpp.StringEncode.XmlText.{
  Special, lt_sign, gt_sign, apos, quot, amp, unsafe-Special, safe-amp, plain_read,
}

-- What the C library says of strtoul: in base 10 it reads the digits of a number, up to a
-- character that is none, and gives its value and how many they are.
abbrev pub ReadsDecimal : Strtoul → Type 0
ReadsDecimal strtoul =
    (value c : ℕ) (rest : Bytes)
    → value < 2 ^ 32
    → is_digit c ≡ false
    → strtoul 10 (decimal value ++ c ∷ rest) ≡ (value, length (decimal value))

-- A character, and how html_encode writes it.
abbrev pub utf8 : ℕ → Bytes
utf8 v = utf8_encode 4 v

abbrev pub is_character : ℕ → Bool
is_character v = ltb v 0x200000

unfoldable pub html_char : ℕ → Bytes
html_char v =
    if ltb v 128 then if is_unsafe xml_unsafe v then html_escape v else v ∷ [] else numbered v

pub at_number :
    (strtoul : Strtoul) (v d : ℕ) (ds rest : Bytes)
    → is_digit d ≡ true
    → strtoul 10 ((d ∷ ds) ++ (b';' ∷ rest)) ≡ (v, length (d ∷ ds))
    → entity_at strtoul (b'#' ∷ (d ∷ ds) ++ (b';' ∷ rest)) ≡ numeric v (1 + length (d ∷ ds) + 1)
unfolding entity_at starts_with numeric_entity is_digit
at_number strtoul v d ds rest digit e =
    let not_x : (b'x' == d) ≡ false = ground (arith, digit) in
    rw (not_x, e, drop-append (d ∷ ds) (b';' ∷ rest)) refl

pub numbered_lem : (v : ℕ) → numbered v ≡ b'&' ∷ b'#' ∷ decimal v ++ codes ";"
unfolding numbered
numbered_lem v = refl

module _ (strtoul : Strtoul) (reads : ReadsDecimal strtoul) where
  entity-numbered :
      (v : ℕ) (rest : Bytes)
      → v < 2 ^ 32
      → entity_at strtoul (b'#' ∷ decimal v ++ (b';' ∷ rest))
        ≡ numeric v (1 + length (decimal v) + 1)
  unfolding is_empty is_digit
  entity-numbered v rest lt =
      go (decimal v) (decimal-AllTrue v) (decimal-nonempty v) (reads v b';' rest lt refl)
    where
      go :
          (ds : Bytes)
          → AllTrue is_digit ds
          → is_empty ds ≡ false
          → strtoul 10 (ds ++ b';' ∷ rest) ≡ (v, length ds)
          → entity_at strtoul (b'#' ∷ ds ++ (b';' ∷ rest)) ≡ numeric v (1 + length ds + 1)
      go [] h e k = absurd (false_not_true (sym e))
      go (d ∷ ds) (cons h t) e k = at_number strtoul v d ds rest h k

  read_number :
      (v n room : ℕ) (rest : Bytes)
      → 4 ≤ room
      → v < 0x200000
      → entity_at strtoul rest ≡ numeric v n
      → xml_read strtoul room b'&' rest ≡ some (utf8 v, n)
  unfolding xml_read utf8_decode
  read_number v n room rest fits lt e =
      rw (e, utf8_encode_room v room fits)
        (go (utf8 v) (utf8_decode-utf8_encode v 4 [] lt (omega arith)))
    where
      go :
          (out : Bytes)
          → utf8_decode (out ++ []) ≡ some (length out, v)
          → (elim out as (λ _. Option (Bytes × ℕ)) [ [] ↦ none | b ∷ more ↦ some (b ∷ more, n) ])
            ≡ some (out, n)
      go [] h = cc
      go (b ∷ more) h = refl

  behind_length : (v : ℕ) → 1 + length (decimal v) + 1 ≡ length (b'#' ∷ decimal v ++ codes ";")
  behind_length v = omega (arith, length-append (decimal v) (codes ";"))

  numbered_long : (v : ℕ) → 4 ≤ length (numbered v)
  unfolding is_empty
  numbered_long v =
      rw numbered_lem (go (decimal v) (decimal-nonempty v) (length-append (decimal v) (codes ";")))
    where
      go :
          (ds : Bytes)
          → is_empty ds ≡ false
          → length (ds ++ codes ";") ≡ length ds + 1
          → 4 ≤ length (b'&' ∷ b'#' ∷ ds ++ codes ";")
      go [] e k = absurd (false_not_true (sym e))
      go (d ∷ ds) e k = omega (arith, k)

  number_back :
      (v : ℕ)
      → v < 0x200000
      → html_char v ≡ numbered v
      → length (utf8 v) ≤ length (numbered v)
      → 4 ≤ length (numbered v)
      → ReadsBack strtoul html_char utf8 v
  number_back v lt e short long = record {
    first = b'&';
    behind = b'#' ∷ decimal v ++ codes ";";
    splits = e ∙ numbered_lem v;
    reads = λ room rest fits. rw append_assoc (
        read_number v _ room _ (omega (arith, fits, long, ap length e)) lt
          (entity-numbered v rest (omega (arith, lt)) ∙ ap (numeric v) (behind_length v)));
    shrinks = rw e short;
  }

  -- The characters with entities of their own.
  entity_back : {v : ℕ} → Special v → ReadsBack strtoul html_char utf8 v
  unfolding html_char html_escape is_unsafe xml_read entity_at utf8_encode numbered
  entity_back lt_sign = record {
    first = b'&';
    behind = codes "lt;";
    splits = refl;
    reads = λ room rest fits. refl;
    shrinks = omega arith;
  }
  entity_back gt_sign = record {
    first = b'&';
    behind = codes "gt;";
    splits = refl;
    reads = λ room rest fits. refl;
    shrinks = omega arith;
  }
  entity_back quot = record {
    first = b'&';
    behind = codes "quot;";
    splits = refl;
    reads = λ room rest fits. refl;
    shrinks = omega arith;
  }
  entity_back amp = record {
    first = b'&';
    behind = codes "amp;";
    splits = refl;
    reads = λ room rest fits. refl;
    shrinks = omega arith;
  }
  entity_back apos = number_back 39 (omega arith) refl (omega arith) (omega arith)

  pub html_back : (v : ℕ) → is_character v ≡ true → ReadsBack strtoul html_char utf8 v
  unfolding html_char
  html_back v h = elim (Bool-cases (ltb v 128)) [
    | inr big ↦
        let long = numbered_long v in
        let short = utf8_encode_short v in
        number_back v (ground arith) (rw big refl) (omega (arith, long, short)) long
    | inl small ↦ elim (Bool-cases (is_unsafe xml_unsafe v)) [
      | inl u ↦ entity_back (unsafe-Special v u)
      | inr u ↦
          let one = utf8_encode_one v 4 (ground (arith, small)) (omega arith) in
          record {
            first = v;
            behind = [];
            splits = rw (small, u) refl;
            reads = λ room rest fits.
                plain_read strtoul room v rest (safe-amp v u) ∙ ap (λ x. some (x, 0)) (sym one);
            shrinks = rw (one, small, u) (omega arith);
          }
    ]
  ]

pub html_read_small : (v : ℕ) (s : Bytes) → ltb v 128 ≡ true → html_read v s ≡ (html_char v, 0)
unfolding html_read html_char
html_read_small v s small = rw (html_read, html_char, small) refl

pub html_read_big :
    (v b n : ℕ) (s : Bytes)
    → ltb b 128 ≡ false
    → ltb v 128 ≡ false
    → utf8_decode (b ∷ s) ≡ some (suc n, v)
    → html_read b s ≡ (html_char v, n)
unfolding html_read html_char
html_read_big v b n s big big_v e = rw (html_read, html_char, big, big_v, e) refl

-- ===== src/UrlEncode/Pieces.antt =====
-- What the encoder of urlencode.cc writes for a character, and that the decoder reads it back.
use Prim.Native.Nat.{bit_and}
use txmpp.Common.{
  ℕ, ◌+◌, ◌/◌, ◌≤◌, ◌<◌, Bool, true, false, ◌&&◌, ◌||◌, [], ◌∷◌, ◌++◌, ◌≡◌, refl, ap, sym, ◌∙◌, inl,
  inr, Bool-cases, AllTrue, nil, cons, arith, ==_iff, false_not_true, Option, none, some, Bytes,
  length, ltb, leb, ◌==◌, is_digit,
}
use txmpp.Common.Bits.{each_below_holds}
use txmpp.StringEncode.{strchr}
use txmpp.UrlEncode.{
  hex_pair_value, percent, decode_one, is_valid_url_char, digit_of, escaped, encode_one,
}

-- What the C library says of isalnum on ASCII: the digits and the letters.
abbrev pub IsAsciiAlnum : (ℕ → Bool) → Type 0
IsAsciiAlnum isalnum =
    (c : ℕ)
    → c < 128
    → isalnum c ≡ (is_digit c || (leb b'A' c && leb c b'Z') || (leb b'a' c && leb c b'z'))

-- The bytes of a C string.
abbrev pub in_string : ℕ → Bool
in_string c = ltb 0 c && ltb c 256

-- A piece that the decoder reads back.
pub record IsRead (plus : Bool) (c : ℕ) (piece : Bytes) : Type 0 where
  pub first : ℕ
  pub behind : Bytes
  pub splits : piece ≡ first ∷ behind
  pub first_stands : (first == 0) ≡ false
  pub stands : AllTrue in_string piece
  pub reads : (rest : Bytes) → decode_one plus first (behind ++ rest) ≡ (c, length behind)
  pub small : length piece ≤ 3

abbrev pub high : ℕ → ℕ
high c = digit_of (bit_and (c / 16) 0x0F)

abbrev pub low : ℕ → ℕ
low c = digit_of (bit_and c 0x0F)

abbrev pub is_value : ℕ → Option ℕ → Bool
is_value c (some v) = v == c
is_value c none = false

pub is_value-some : (c : ℕ) (o : Option ℕ) → is_value c o ≡ true → o ≡ some c
is_value-some c (some v) h = ap some ((==_iff v c).0 h)
is_value-some c none h = absurd (false_not_true h)

module _ (c : ℕ) (lt : c < 256) where
  high_stands : in_string (high c) ≡ true
  high_stands = each_below_holds 256 (λ c. in_string (high c)) refl lt

  low_stands : in_string (low c) ≡ true
  low_stands = each_below_holds 256 (λ c. in_string (low c)) refl lt

  pair_value : hex_pair_value (high c) (low c) ≡ some c
  unfolding hex_pair_value
  pair_value =
      is_value-some c (hex_pair_value (high c) (low c))
        (each_below_holds 256 (λ c. is_value c (hex_pair_value (high c) (low c))) refl lt)

  percent_lem : (rest : Bytes) → percent (high c ∷ low c ∷ rest) ≡ (c, 2)
  unfolding percent
  percent_lem rest =
      let a : (high c == 0) ≡ false = ground (arith, high_stands) in
      let b : (low c == 0) ≡ false = ground (arith, low_stands) in
      rw (percent, a, b, pair_value) refl

pub escaped-IsRead : (plus : Bool) (c : ℕ) → c < 256 → IsRead plus c (escaped c)
unfolding escaped decode_one
escaped-IsRead plus c lt = record {
  first = b'%';
  behind = high c ∷ low c ∷ [];
  splits = refl;
  first_stands = refl;
  stands = cons refl (cons (high_stands c lt) (cons (low_stands c lt) nil));
  reads = λ rest. percent_lem c lt rest;
  small = omega arith;
}

pub plain-IsRead :
    (plus : Bool) (c : ℕ)
    → in_string c ≡ true
    → (c == b'+') ≡ false
    → (c == b'%') ≡ false
    → IsRead plus c (c ∷ [])
unfolding decode_one
plain-IsRead plus c h a b = record {
  first = c;
  behind = [];
  splits = refl;
  first_stands = ground (arith, h);
  stands = cons h nil;
  reads = λ rest. rw (decode_one, a, b) refl;
  small = omega arith;
}

pub plus-IsRead : (c : ℕ) → (c == b' ') ≡ true → IsRead true c (b'+' ∷ [])
unfolding decode_one
plus-IsRead c h = record {
  first = b'+';
  behind = [];
  splits = refl;
  first_stands = refl;
  stands = cons refl nil;
  reads = λ rest. ap (λ x. (x, 0)) (sym ((==_iff c b' ').0 h));
  small = omega arith;
}

module _ (isalnum : ℕ → Bool) (alnum : IsAsciiAlnum isalnum) where
  -- A character that is written as itself is neither '+' nor '%'.
  valid_differs :
      (c : ℕ)
      → is_valid_url_char isalnum c false ≡ true
      → ((c == b'+') ≡ false) × ((c == b'%') ≡ false)
  unfolding is_valid_url_char strchr is_digit
  valid_differs c h = (
    differs b'+' (rw (alnum 43 (omega arith)) refl),
    differs b'%' (rw (alnum 37 (omega arith)) refl),
  )
    where
      differs : (k : ℕ) → is_valid_url_char isalnum k false ≡ false → (c == k) ≡ false
      differs k e = elim (Bool-cases (c == k)) [
        | inr n ↦ n
        | inl y ↦ absurd (
            false_not_true
              (sym e ∙ ap (λ x. is_valid_url_char isalnum x false) (sym ((==_iff c k).0 y)) ∙ h))
      ]

  -- Where the space is not written as '+'.
  unspaced-IsRead :
      (max n : ℕ) (plus : Bool) (c : ℕ)
      → in_string c ≡ true
      → n + 4 ≤ max
      → (c == b' ' && plus && true) ≡ false
      → (out : Bytes) × (encode_one isalnum max plus false n c ≡ some out) × IsRead plus c out
  unfolding encode_one
  unspaced-IsRead max n plus c h room s = elim (Bool-cases (is_valid_url_char isalnum c false)) [
    | inl v ↦
        let (a, b) = valid_differs c v in
        (c ∷ [], rw (encode_one, s, v) refl, plain-IsRead plus c h a b)
    | inr v ↦
        let fits : ltb max (n + 4) ≡ false = ground (arith, room) in
        (escaped c, rw (encode_one, s, v, fits) refl, escaped-IsRead plus c (ground (arith, h)))
  ]

  pub encode_one-IsRead :
      (max n : ℕ) (plus : Bool) (c : ℕ)
      → in_string c ≡ true
      → n + 4 ≤ max
      → (out : Bytes) × (encode_one isalnum max plus false n c ≡ some out) × IsRead plus c out
  unfolding encode_one
  encode_one-IsRead max n false c h room = unspaced-IsRead max n false c h room (ground arith)
  encode_one-IsRead max n true c h room = elim (Bool-cases (c == b' ')) [
    | inl y ↦ (b'+' ∷ [], rw (encode_one, y) refl, plus-IsRead c y)
    | inr y ↦ unspaced-IsRead max n true c h room (rw y refl)
  ]

-- ===== src/StringEncode/Characters.antt =====
-- What utf8_decode makes of the output of utf8_encode (stringencode.cc).
use Prim.Native.Nat.{bit_and}
use txmpp.Common.{
  ℕ, ◌/◌, ◌%◌, ◌<◌, ◌≤◌, ◌^◌, true, ◌≡◌, refl, ap, ◌∙◌, [], ◌∷◌, ◌++◌, some, Bytes, length, leb,
  arith, inl, inr, Bool-cases,
}
use txmpp.Common.Bits.{each_below_holds}
use txmpp.Common.Bits.Masks.{or_below_64, or_below_4096, or_below_262144}
use txmpp.StringEncode.Utf8.{
  masked, trailer, lead2, lead3, lead4, decode_two, decode_three, decode_four, utf8_decode, byte,
  six, utf8_encode,
}
use txmpp.StringEncode.Utf8Bytes.{
  first2, first3, first4, four_bits, four_is_four, four_not_one, four_not_three, four_not_two,
  six-masked, six_bits, three_bits, three_is_three, three_not_one, three_not_two, trailer-six_all,
  trailer-six_low, trailer-six_middle, two_bits, two_is_two, two_not_one,
}

one_masked : (v : ℕ) → v < 128 → masked 0x80 0x00 (byte v) ≡ true
one_masked v = each_below_holds 128 (λ v. masked 0x80 0x00 (byte v)) refl

decode_one_lem : (v : ℕ) (rest : Bytes) → v < 128 → utf8_decode (byte v ∷ rest) ≡ some (1, v)
unfolding utf8_decode
decode_one_lem v rest lt = rw (one_masked v lt) (ap (λ x. some (1, x)) (omega (arith, lt)))

decode_two_lem :
    (v : ℕ) (rest : Bytes)
    → v < 0x800
    → utf8_decode (first2 (v / 2 ^ 6) ∷ six v ∷ rest) ≡ some (2, v)
unfolding utf8_decode decode_two lead2
decode_two_lem v rest lt =
    let small : v / 2 ^ 6 < 32 = omega arith in
    let whole = or_below_64 (v / 2 ^ 6) (v % 64) (omega arith) in
    rw (two_not_one _ small, six-masked v, two_is_two _ small, six_bits v, two_bits _ small)
      (ap (λ x. some (2, x)) (whole ∙ omega arith))

decode_three_lem :
    (v : ℕ) (rest : Bytes)
    → v < 0x10000
    → utf8_decode (first3 (v / 2 ^ 12) ∷ six (v / 2 ^ 6) ∷ six v ∷ rest) ≡ some (3, v)
unfolding utf8_decode decode_two decode_three lead3
decode_three_lem v rest lt =
    let small : v / 2 ^ 12 < 16 = omega arith in
    let upper : bit_and (six (v / 2 ^ 6)) 0x3F ≡ v / 2 ^ 6 % 64 = six_bits (v / 2 ^ 6) in
    let low : trailer (v / 2 ^ 6 % 64) (six v) ≡ v % 4096 = trailer-six_low v in
    let whole = or_below_4096 (v / 2 ^ 12) (v % 4096) (omega arith) in
    rw
      (
        three_not_one _ small,
        six-masked (v / 2 ^ 6),
        six-masked v,
        three_not_two _ small,
        upper,
        low,
        three_is_three _ small,
        three_bits _ small,
      )
      (ap (λ x. some (3, x)) (whole ∙ omega arith))

decode_four_lem :
    (v : ℕ) (rest : Bytes)
    → v < 0x200000
    → utf8_decode (first4 (v / 2 ^ 18) ∷ six (v / 2 ^ 12) ∷ six (v / 2 ^ 6) ∷ six v ∷ rest)
      ≡ some (4, v)
unfolding utf8_decode decode_two decode_three decode_four lead4
decode_four_lem v rest lt =
    let small : v / 2 ^ 18 < 8 = omega arith in
    let upper : bit_and (six (v / 2 ^ 12)) 0x3F ≡ v / 2 ^ 12 % 64 = six_bits (v / 2 ^ 12) in
    let middle : trailer (v / 2 ^ 12 % 64) (six (v / 2 ^ 6)) ≡ v / 2 ^ 6 % 4096 =
      trailer-six_middle v in
    let low : trailer (v / 2 ^ 6 % 4096) (six v) ≡ v % 262144 = trailer-six_all v in
    let whole = or_below_262144 (v / 2 ^ 18) (v % 262144) (omega arith) in
    rw
      (
        four_not_one _ small,
        six-masked (v / 2 ^ 12),
        six-masked (v / 2 ^ 6),
        six-masked v,
        four_not_two _ small,
        upper,
        middle,
        low,
        four_not_three _ small,
        four_is_four _ small,
        four_bits _ small,
      )
      (ap (λ x. some (4, x)) (whole ∙ omega arith))

-- A character below 2 ^ 21, given room for four bytes and none for a null, is written as one to four bytes, from which,
-- whatever follows them, utf8_decode reads it back with their number.
pub utf8_decode-utf8_encode :
    (v buflen : ℕ) (rest : Bytes)
    → v < 0x200000
    → 4 ≤ buflen
    → utf8_decode (utf8_encode buflen v ++ rest) ≡ some (length (utf8_encode buflen v), v)
unfolding utf8_encode
utf8_decode-utf8_encode v buflen rest lt room = elim (Bool-cases (leb v 0x7F)) [
  | inl a ↦ rw (a, room1) (decode_one_lem v rest (ground (arith, a)))
  | inr a ↦ elim (Bool-cases (leb v 0x7FF)) [
    | inl b ↦ rw (a, b, room2) (decode_two_lem v rest (ground (arith, b)))
    | inr b ↦ elim (Bool-cases (leb v 0xFFFF)) [
      | inl c ↦ rw (a, b, c, room3) (decode_three_lem v rest (ground (arith, c)))
      | inr c ↦ rw (a, b, c, most, room4) (decode_four_lem v rest lt)
    ]
  ]
]
  where
    room1 : leb 1 buflen ≡ true
    room1 = ground arith

    room2 : leb 2 buflen ≡ true
    room2 = ground arith

    room3 : leb 3 buflen ≡ true
    room3 = ground arith

    room4 : leb 4 buflen ≡ true
    room4 = ground arith

    most : leb v 0x1FFFFF ≡ true
    most = ground arith

-- Room for more than four bytes changes nothing.
pub utf8_encode_room : (v buflen : ℕ) → 4 ≤ buflen → utf8_encode buflen v ≡ utf8_encode 4 v
unfolding utf8_encode
utf8_encode_room v buflen h =
    let room1 : leb 1 buflen ≡ true = ground arith in
    let room2 : leb 2 buflen ≡ true = ground arith in
    let room3 : leb 3 buflen ≡ true = ground arith in
    let room4 : leb 4 buflen ≡ true = ground arith in rw (room1, room2, room3, room4) refl

pub utf8_encode_one : (v buflen : ℕ) → v < 128 → 1 ≤ buflen → utf8_encode buflen v ≡ v ∷ []
unfolding utf8_encode
utf8_encode_one v buflen lt h =
    let a : leb v 0x7F ≡ true = ground arith in
    let room : leb 1 buflen ≡ true = ground arith in
    let same : byte v ≡ v = omega arith in rw (a, room) (ap (λ x. x ∷ []) same)

pub utf8_encode_short : (v : ℕ) → length (utf8_encode 4 v) ≤ 4
unfolding utf8_encode
utf8_encode_short v = elim (Bool-cases (leb v 0x7F)) [
  | inl a ↦ rw a (omega arith)
  | inr a ↦ elim (Bool-cases (leb v 0x7FF)) [
    | inl b ↦ rw (a, b) (omega arith)
    | inr b ↦ elim (Bool-cases (leb v 0xFFFF)) [
      | inl c ↦ rw (a, b, c) (omega arith)
      | inr c ↦ elim (Bool-cases (leb v 0x1FFFFF)) [
        | inl d ↦ rw (a, b, c, d) (omega arith)
        | inr d ↦ rw (a, b, c, d) (omega arith)
      ]
    ]
  ]
]

-- A first byte below 128 is the character.
pub utf8_decode_one : (b : ℕ) (s : Bytes) → b < 128 → utf8_decode (b ∷ s) ≡ some (1, b)
unfolding utf8_decode
utf8_decode_one b s lt = rw (each_below_holds 128 (λ v. masked 0x80 0x00 v) refl lt) refl

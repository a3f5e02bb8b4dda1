-- ===== src/StringEncode/Utf8Bytes.antt =====
-- The bytes of a UTF-8 sequence, as utf8_encode writes and utf8_decode reads them (stringencode.cc).
use Prim.Native.Nat.{bit_and, bit_or}
use txmpp.Common.{ℕ, ◌/◌, ◌%◌, ◌<◌, ◌^◌, true, false, not, ◌≡◌, refl, ◌∙◌, arith}
use txmpp.Common.Bits.{by_table, each_below_holds}
use txmpp.Common.Bits.Masks.{and_63, or_below_64}
use txmpp.StringEncode.Utf8.{masked, trailer, byte, six}

-- The first byte of a sequence of two, three and four.
abbrev pub first2 : ℕ → ℕ
first2 x = byte (bit_or 0xC0 (byte x))

abbrev pub first3 : ℕ → ℕ
first3 x = byte (bit_or 0xE0 (byte x))

abbrev pub first4 : ℕ → ℕ
first4 x = byte (bit_or 0xF0 (byte x))

pub trailing : ℕ → ℕ
trailing x = bit_or 0x80 (byte x)

pub six-trailing : (n : ℕ) → six n ≡ trailing (n % 64)
unfolding six trailing
six-trailing n = rw and_63 refl

pub trailing-masked : (x : ℕ) → x < 64 → masked 0xC0 0x80 (trailing x) ≡ true
unfolding trailing
trailing-masked x = each_below_holds 64 (λ x. masked 0xC0 0x80 (trailing x)) refl

pub trailing_bits : (x : ℕ) → x < 64 → bit_and (trailing x) 0x3F ≡ x
unfolding trailing
trailing_bits = by_table 64 _ (λ x. x) refl

pub six-masked : (n : ℕ) → masked 0xC0 0x80 (six n) ≡ true
six-masked n = rw six-trailing (trailing-masked (n % 64) (omega arith))

pub six_bits : (n : ℕ) → bit_and (six n) 0x3F ≡ n % 64
six_bits n = rw six-trailing (trailing_bits (n % 64) (omega arith))

-- A byte behind adds its six bits.
pub trailer-six_low : (v : ℕ) → trailer (v / 2 ^ 6 % 64) (six v) ≡ v % 4096
unfolding trailer
trailer-six_low v = rw six_bits (or_below_64 (v / 2 ^ 6 % 64) (v % 64) (omega arith) ∙ omega arith)

pub trailer-six_middle : (v : ℕ) → trailer (v / 2 ^ 12 % 64) (six (v / 2 ^ 6)) ≡ v / 2 ^ 6 % 4096
unfolding trailer
trailer-six_middle v =
    rw six_bits (or_below_64 (v / 2 ^ 12 % 64) (v / 2 ^ 6 % 64) (omega arith) ∙ omega arith)

pub trailer-six_all : (v : ℕ) → trailer (v / 2 ^ 6 % 4096) (six v) ≡ v % 262144
unfolding trailer
trailer-six_all v =
    rw six_bits (or_below_64 (v / 2 ^ 6 % 4096) (v % 64) (omega arith) ∙ omega arith)

module _ (x : ℕ) (lt : x < 32) where
  pub two_not_one : masked 0x80 0x00 (first2 x) ≡ false
  two_not_one = ground (arith, each_below_holds 32 (λ x. not (masked 0x80 0x00 (first2 x))) refl lt)

  pub two_is_two : masked 0xE0 0xC0 (first2 x) ≡ true
  two_is_two = each_below_holds 32 (λ x. masked 0xE0 0xC0 (first2 x)) refl lt

  pub two_bits : bit_and (first2 x) 0x1F ≡ x
  two_bits = by_table 32 (λ x. bit_and (first2 x) 0x1F) (λ x. x) refl x lt

module _ (x : ℕ) (lt : x < 16) where
  pub three_not_one : masked 0x80 0x00 (first3 x) ≡ false
  three_not_one =
      ground (arith, each_below_holds 16 (λ x. not (masked 0x80 0x00 (first3 x))) refl lt)

  pub three_not_two : masked 0xE0 0xC0 (first3 x) ≡ false
  three_not_two =
      ground (arith, each_below_holds 16 (λ x. not (masked 0xE0 0xC0 (first3 x))) refl lt)

  pub three_is_three : masked 0xF0 0xE0 (first3 x) ≡ true
  three_is_three = each_below_holds 16 (λ x. masked 0xF0 0xE0 (first3 x)) refl lt

  pub three_bits : bit_and (first3 x) 0x0F ≡ x
  three_bits = by_table 16 (λ x. bit_and (first3 x) 0x0F) (λ x. x) refl x lt

module _ (x : ℕ) (lt : x < 8) where
  pub four_not_one : masked 0x80 0x00 (first4 x) ≡ false
  four_not_one = ground (arith, each_below_holds 8 (λ x. not (masked 0x80 0x00 (first4 x))) refl lt)

  pub four_not_two : masked 0xE0 0xC0 (first4 x) ≡ false
  four_not_two = ground (arith, each_below_holds 8 (λ x. not (masked 0xE0 0xC0 (first4 x))) refl lt)

  pub four_not_three : masked 0xF0 0xE0 (first4 x) ≡ false
  four_not_three =
      ground (arith, each_below_holds 8 (λ x. not (masked 0xF0 0xE0 (first4 x))) refl lt)

  pub four_is_four : masked 0xF8 0xF0 (first4 x) ≡ true
  four_is_four = each_below_holds 8 (λ x. masked 0xF8 0xF0 (first4 x)) refl lt

  pub four_bits : bit_and (first4 x) 0x07 ≡ x
  four_bits = by_table 8 (λ x. bit_and (first4 x) 0x07) (λ x. x) refl x lt

-- ===== src/Base64/Tables.antt =====
-- The characters and the sextets of Base64 (base64.cc), value by value.
use Prim.Native.Nat.{bit_and, bit_or}
use txmpp.Base64.{
  base64_char, decode_char, sextet0, sextet1, sextet1_with, sextet2, sextet2_with, sextet3, octet0,
  octet1, octet2, k_pad, pd,
}
use txmpp.Common.{ℕ, ◌+◌, ◌*◌, ◌/◌, ◌%◌, ◌<◌, ◌≡◌, refl, arith, ◌==◌, true}
use txmpp.Common.Bits.{by_table, each_below}

pub decode_char-base64_char : (v : ℕ) → v < 64 → decode_char (base64_char v) ≡ v
unfolding decode_char base64_char
decode_char-base64_char = by_table 64 _ (λ v. v) refl

pub decode_char-k_pad : decode_char k_pad ≡ pd
unfolding decode_char
decode_char-k_pad = refl

-- Two numbers without a common bit, the upper a multiple of w.
bit_or_parts :
    (w m : ℕ)
    → each_below m (λ n. bit_or (n / w * w) (n % w) == n) ≡ true
    → {x y n : ℕ} → x ≡ n / w
    → y ≡ n % w
    → n < m
    → bit_or (x * w) y ≡ n
bit_or_parts w m h {x} {y} {n} hx hy lt =
    rw (hx, hy) (by_table m (λ n. bit_or (n / w * w) (n % w)) (λ n. n) h n lt)

pub sextet0_lem : (a : ℕ) → a < 256 → sextet0 a ≡ a / 4
unfolding sextet0
sextet0_lem = by_table 256 _ (λ a. a / 4) refl

pub sextet1_lem : (a : ℕ) → a < 256 → sextet1 a ≡ a % 4 * 16
unfolding sextet1
sextet1_lem = by_table 256 _ (λ a. a % 4 * 16) refl

pub sextet2_lem : (b : ℕ) → b < 256 → sextet2 b ≡ b % 16 * 4
unfolding sextet2
sextet2_lem = by_table 256 _ (λ b. b % 16 * 4) refl

pub sextet3_lem : (c : ℕ) → c < 256 → sextet3 c ≡ c % 64
unfolding sextet3
sextet3_lem = by_table 256 _ (λ c. c % 64) refl

low4 : (b : ℕ) → b < 256 → bit_and (b / 16) 0x0f ≡ b / 16
low4 = by_table 256 _ (λ b. b / 16) refl

low2 : (c : ℕ) → c < 256 → bit_and (c / 64) 0x03 ≡ c / 64
low2 = by_table 256 _ (λ c. c / 64) refl

pub sextet1_with_lem : (a b : ℕ) → a < 256 → b < 256 → sextet1_with a b ≡ a % 4 * 16 + b / 16
unfolding sextet1_with sextet1
sextet1_with_lem a b ha hb =
    rw (sextet1_lem a ha, low4 b hb)
      (bit_or_parts 16 64 refl (omega arith) (omega arith) (omega arith))

pub sextet2_with_lem : (b c : ℕ) → b < 256 → c < 256 → sextet2_with b c ≡ b % 16 * 4 + c / 64
unfolding sextet2_with sextet2
sextet2_with_lem b c hb hc =
    rw (sextet2_lem b hb, low2 c hc)
      (bit_or_parts 4 64 refl (omega arith) (omega arith) (omega arith))

high2 : (v : ℕ) → v < 64 → bit_and (v / 16) 0x3 ≡ v / 16
high2 = by_table 64 _ (λ v. v / 16) refl

high4 : (v : ℕ) → v < 64 → bit_and (v / 4) 0xf ≡ v / 4
high4 = by_table 64 _ (λ v. v / 4) refl

shifted4 : (v : ℕ) → v < 64 → bit_and (v * 16) 0xf0 ≡ v % 16 * 16
shifted4 = by_table 64 _ (λ v. v % 16 * 16) refl

shifted6 : (v : ℕ) → v < 64 → bit_and (v * 64) 0xc0 ≡ v % 4 * 64
shifted6 = by_table 64 _ (λ v. v % 4 * 64) refl

pub octet0_lem : (p q : ℕ) → p < 64 → q < 64 → octet0 p q ≡ p * 4 + q / 16
unfolding octet0
octet0_lem p q hp hq = rw (high2 q hq) (
    rw
      (bit_or_parts 4 256 refl {x = p} {y = q / 16} {n = p * 4 + q / 16} (omega arith) (omega arith)
        (omega arith))
      (omega arith))

pub octet1_lem : (p q : ℕ) → p < 64 → q < 64 → octet1 p q ≡ p % 16 * 16 + q / 4
unfolding octet1
octet1_lem p q hp hq =
    rw (shifted4 p hp, high4 q hq)
      (bit_or_parts 16 256 refl (omega arith) (omega arith) (omega arith))

pub octet2_lem : (p q : ℕ) → p < 64 → q < 64 → octet2 p q ≡ p % 4 * 64 + q
unfolding octet2
octet2_lem p q hp hq =
    rw (shifted6 p hp) (bit_or_parts 64 256 refl (omega arith) (omega arith) (omega arith))

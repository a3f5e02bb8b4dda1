-- ===== src/Common/Bits/Masks.antt =====
-- The bit operations at any numbers: a mask of ones below, and two numbers without a common bit.
use Prim.Native.Nat.{
  ℕ, zero, suc, ◌+◌, ◌*◌, ◌/◌, ◌%◌, ◌≤◌, ◌<◌, min, max, bit_and, bit_or, digits, bit_and-bitwise,
  bit_or-bitwise,
}
use mathlib.Core.Path.{◌≡◌, refl, ap}
use native.Mathlib.Omega.{arith}

-- More rounds than the first number has digits change nothing.
module _ (z : ℕ → ℕ) (op : ℕ → ℕ → ℕ) where
  digits_rounds : (n m a b : ℕ) → a ≤ n → a ≤ m → digits z op n a b ≡ digits z op m a b
  digits_rounds zero zero a b h k = refl
  digits_rounds zero (suc m) zero b h k = refl
  digits_rounds (suc n) zero zero b h k = refl
  digits_rounds (suc n) (suc m) zero b h k = refl
  digits_rounds zero (suc m) (suc a) b h k = absurd (omega arith)
  digits_rounds (suc n) zero (suc a) b h k = absurd (omega arith)
  digits_rounds (suc n) (suc m) (suc a) b h k =
      omega (arith, digits_rounds n m (suc a / 2) (b / 2) (omega arith) (omega arith))

and_low : (a b : ℕ) → bit_and a b ≡ bit_and (a / 2) (b / 2) * 2 + min (a % 2) (b % 2)
and_low zero b = omega (arith, bit_and-bitwise 0 b, bit_and-bitwise 0 (b / 2))
and_low (suc a) b =
    let half = suc a / 2 in
    omega (
      arith,
      bit_and-bitwise (suc a) b,
      bit_and-bitwise half (b / 2),
      digits_rounds (λ _. zero) min a half half (b / 2) (omega arith) (omega arith),
    )

or_low : (a b : ℕ) → bit_or a b ≡ bit_or (a / 2) (b / 2) * 2 + max (a % 2) (b % 2)
or_low zero b = omega (arith, bit_or-bitwise 0 b, bit_or-bitwise 0 (b / 2))
or_low (suc a) b =
    let half = suc a / 2 in
    omega (
      arith,
      bit_or-bitwise (suc a) b,
      bit_or-bitwise half (b / 2),
      digits_rounds (λ n. n) max a half half (b / 2) (omega arith) (omega arith),
    )

and_zero_below : (n a : ℕ) → a ≤ n → bit_and a 0 ≡ 0
and_zero_below n zero h = bit_and-bitwise 0 0
and_zero_below zero (suc a) h = absurd (omega arith)
and_zero_below (suc n) (suc a) h =
    omega (arith, and_low (suc a) 0, and_zero_below n (suc a / 2) (omega arith))

and_1 : (a : ℕ) → bit_and a 1 ≡ a % 2
and_1 a = omega (arith, and_low a 1, and_zero_below (a / 2) (a / 2) (omega arith))

and_3 : (a : ℕ) → bit_and a 3 ≡ a % 4
and_3 a = omega (arith, and_low a 3, and_1 (a / 2))

pub and_7 : (a : ℕ) → bit_and a 7 ≡ a % 8
and_7 a = omega (arith, and_low a 7, and_3 (a / 2))

pub and_15 : (a : ℕ) → bit_and a 15 ≡ a % 16
and_15 a = omega (arith, and_low a 15, and_7 (a / 2))

pub and_31 : (a : ℕ) → bit_and a 31 ≡ a % 32
and_31 a = omega (arith, and_low a 31, and_15 (a / 2))

pub and_63 : (a : ℕ) → bit_and a 63 ≡ a % 64
and_63 a = omega (arith, and_low a 63, and_31 (a / 2))

pub and_127 : (a : ℕ) → bit_and a 127 ≡ a % 128
and_127 a = omega (arith, and_low a 127, and_63 (a / 2))

pub and_255 : (a : ℕ) → bit_and a 255 ≡ a % 256
and_255 a = omega (arith, and_low a 255, and_127 (a / 2))

-- v times 2 to the k.
abbrev pub shifted : ℕ → ℕ → ℕ
shifted zero v = v
shifted (suc k) v = shifted k v * 2

or_nothing_below : (n a : ℕ) → a ≤ n → bit_or a 0 ≡ a
or_nothing_below n zero h = bit_or-bitwise 0 0
or_nothing_below zero (suc a) h = absurd (omega arith)
or_nothing_below (suc n) (suc a) h =
    omega (arith, or_low (suc a) 0, or_nothing_below n (suc a / 2) (omega arith))

-- What is or-ed into the k free bits below.
or_shifted : (k v x : ℕ) → x < shifted k 1 → bit_or (shifted k v) x ≡ shifted k v + x
or_shifted zero v zero h = omega (arith, or_nothing_below v v (omega arith))
or_shifted zero v (suc x) h = absurd (omega arith)
or_shifted (suc k) v x h =
    let below = or_shifted k v (x / 2) (omega arith) in
    let half : shifted k v * 2 / 2 ≡ shifted k v = omega arith in
    omega (arith, or_low (shifted k v * 2) x, ap (λ y. bit_or y (x / 2)) half, below)

pub or_below : (k w v x : ℕ) → v * w ≡ shifted k v → x < shifted k 1 → bit_or (v * w) x ≡ v * w + x
or_below k w v x e h = rw e (or_shifted k v x h)

pub or_below_64 : (v x : ℕ) → x < 64 → bit_or (v * 64) x ≡ v * 64 + x
or_below_64 v x h = or_below 6 64 v x (omega arith) (omega (arith, h))

pub or_below_4096 : (v x : ℕ) → x < 4096 → bit_or (v * 4096) x ≡ v * 4096 + x
or_below_4096 v x h = or_below 12 4096 v x (omega arith) (omega (arith, h))

pub or_below_262144 : (v x : ℕ) → x < 262144 → bit_or (v * 262144) x ≡ v * 262144 + x
or_below_262144 v x h = or_below 18 262144 v x (omega arith) (omega (arith, h))

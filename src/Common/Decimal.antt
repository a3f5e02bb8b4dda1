-- ===== src/Common/Decimal.antt =====
-- The decimal numeral that a stream prints for a number, with enough fuel for its digits.
use Prim.Native.Nat.{ℕ, zero, suc, ◌+◌, ◌-◌, ◌*◌, ◌/◌, ◌%◌, ◌≤◌, ◌<◌}
use mathlib.Core.Path.{◌≡◌, refl, ap, sym, ◌∙◌}
use mathlib.Core.Logic.{inl, inr}
use mathlib.Core.Bool.{Bool, false, ◌&&◌}
use mathlib.Core.List.{[], ◌∷◌}
use native.Mathlib.Omega.{arith}
use txmpp.Common.ByteString.{Bytes, is_empty}
use txmpp.Common.Lists.{length, AllTrue, nil, cons}
use txmpp.Common.Tests.{ltb, leb, if◌then◌else◌, Bool-cases}

digits_onto : ℕ → ℕ → Bytes → Bytes
digits_onto zero n acc = acc
digits_onto (suc fuel) n acc =
    let more = digits_onto fuel (n / 10) ((48 + n % 10) ∷ acc) in
    if ltb n 10 then (48 + n) ∷ acc else more

unfoldable pub decimal : ℕ → Bytes
unfolding digits_onto
decimal n = digits_onto (suc n) n []

abbrev pub value_from : ℕ → Bytes → ℕ
value_from v [] = v
value_from v (c ∷ s) = value_from (v * 10 + (c - 48)) s

value-digits_onto :
    (fuel n : ℕ) (acc : Bytes) → n < fuel → value_from 0 (digits_onto fuel n acc) ≡ value_from n acc
unfolding digits_onto
value-digits_onto zero n acc h = absurd (omega arith)
value-digits_onto (suc fuel) n acc h = elim (Bool-cases (ltb n 10)) [
  | inl e ↦ rw e (ap (λ v. value_from v acc) (omega arith))
  | inr e ↦ rw e (
      value-digits_onto fuel (n / 10) ((48 + n % 10) ∷ acc) (ground arith)
      ∙ ap (λ v. value_from v acc) (omega arith))
]

pub value-decimal : (n : ℕ) → value_from 0 (decimal n) ≡ n
unfolding decimal
value-decimal n = value-digits_onto (suc n) n [] (omega arith)

-- Different numbers have different numerals.
pub decimal-injective : (m n : ℕ) → decimal m ≡ decimal n → m ≡ n
decimal-injective m n e = sym (value-decimal m) ∙ ap (value_from 0) e ∙ value-decimal n

unfoldable pub is_digit : ℕ → Bool
is_digit c = leb 48 c && leb c 57

digits_onto-AllTrue :
    (fuel n : ℕ) {acc : Bytes} → AllTrue is_digit acc → AllTrue is_digit (digits_onto fuel n acc)
unfolding digits_onto is_digit
digits_onto-AllTrue zero n h = h
digits_onto-AllTrue (suc fuel) n h = elim (Bool-cases (ltb n 10)) [
  | inl e ↦ rw e (cons (ground arith) h)
  | inr e ↦ rw e (digits_onto-AllTrue fuel (n / 10) (cons (ground arith) h))
]

pub decimal-AllTrue : (n : ℕ) → AllTrue is_digit (decimal n)
unfolding decimal
decimal-AllTrue n = digits_onto-AllTrue (suc n) n nil

digits_onto-nonempty :
    (fuel n c : ℕ) (acc : Bytes) → is_empty (digits_onto fuel n (c ∷ acc)) ≡ false
unfolding digits_onto is_empty
digits_onto-nonempty zero n c acc = refl
digits_onto-nonempty (suc fuel) n c acc =
    ground (arith, digits_onto-nonempty fuel (n / 10) (48 + n % 10) (c ∷ acc))

pub decimal-nonempty : (n : ℕ) → is_empty (decimal n) ≡ false
unfolding decimal digits_onto is_empty
decimal-nonempty n = ground (arith, digits_onto-nonempty n (n / 10) (48 + n % 10) [])

abbrev pub pow10 : ℕ → ℕ
pow10 zero = 1
pow10 (suc k) = pow10 k * 10

digits_onto_short :
    (fuel n k : ℕ) (acc : Bytes)
    → n < pow10 (suc k)
    → length (digits_onto fuel n acc) ≤ suc k + length acc
unfolding digits_onto
digits_onto_short zero n k acc h = omega arith
digits_onto_short (suc fuel) n zero acc h = elim (Bool-cases (ltb n 10)) [
  | inl e ↦ rw e (omega arith)
  | inr e ↦ absurd (ground (arith, e, h))
]
digits_onto_short (suc fuel) n (suc k) acc h = elim (Bool-cases (ltb n 10)) [
  | inl e ↦ rw e (omega arith)
  | inr e ↦
      let ih = digits_onto_short fuel (n / 10) k ((48 + n % 10) ∷ acc) (omega (arith, h)) in
      rw e (omega (arith, ih))
]

-- A number of k digits.
pub decimal_short : (n k : ℕ) → n < pow10 (suc k) → length (decimal n) ≤ suc k
unfolding decimal
decimal_short n k h = omega (arith, digits_onto_short (suc n) n k [] h)

-- ===== src/Common/Bits.antt =====
-- The bit operations on small numbers, value by value.
pub mod Masks
use Prim.Native.Nat.{ℕ, zero, suc, ◌<◌}
use mathlib.Core.Path.{◌≡◌}
use mathlib.Core.Bool.{Bool, true, ◌&&◌}
use native.Mathlib.Omega.{arith}
use txmpp.Common.Tests.{◌==◌, ==_iff}

-- All the numbers below n pass.
abbrev pub each_below : ℕ → (ℕ → Bool) → Bool
each_below zero p = true
each_below (suc n) p = p n && each_below n p

pub each_below_holds : (n : ℕ) (p : ℕ → Bool) {x : ℕ} → each_below n p ≡ true → x < n → p x ≡ true
each_below_holds zero p h lt = absurd (omega arith)
each_below_holds (suc n) p {x} h lt = ground (arith, each_below_holds n p {x = x})

-- Two functions that agree by a table.
pub by_table :
    (n : ℕ) (f g : ℕ → ℕ) → each_below n (λ x. f x == g x) ≡ true → (x : ℕ) → x < n → f x ≡ g x
by_table n f g h x lt = (==_iff (f x) (g x)).0 (each_below_holds n (λ x. f x == g x) h lt)

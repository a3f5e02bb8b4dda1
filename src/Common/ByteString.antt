-- ===== src/Common/ByteString.antt =====
-- std::string as a list of bytes: equality, order, search and ASCII literals.
use Prim.Native.Char.{code}
use Prim.Native.String.{String}
use Prim.Native.Nat.{ℕ, suc, ◌+◌, compare, Ordering}
use mathlib.Core.Path.{◌≡◌, refl}
use mathlib.Core.Logic.{◌↔◌}
use mathlib.Core.Bool.{Bool, true, false, not, ◌&&◌}
use mathlib.Core.Option
use mathlib.Core.Option.{Option, none, some}
use mathlib.Core.List.{List, [], ◌∷◌, ◌++◌}
use native.Mathlib.Omega.{arith}
use txmpp.Common.Tests.{◌==◌, if◌then◌else◌}
use txmpp.Common.Lists.{length, take, AllTrue, nil, cons}

abbrev pub Bytes : Type 0
Bytes = List ℕ

-- The bytes of an ASCII literal.
abbrev pub codes : String → Bytes
codes String.[] = []
codes (String.◌∷◌ c s) = code c ∷ codes s

unfoldable pub is_empty : Bytes → Bool
is_empty [] = true
is_empty (_ ∷ _) = false

unfoldable pub beq : Bytes → Bytes → Bool
beq [] [] = true
beq (x ∷ a) (y ∷ b) = x == y && beq a b
beq _ _ = false

pub beq_iff : (a b : Bytes) → (beq a b ≡ true) ↔ (a ≡ b)
unfolding beq
beq_iff (x ∷ a) (y ∷ b) = ground (arith, beq_iff a b)
beq_iff _ _ = ground arith

pub beq_refl : (a : Bytes) → beq a a ≡ true
beq_refl a = (beq_iff a a).1 refl

pub beq_sym : (a b : Bytes) → beq a b ≡ beq b a
beq_sym a b = ground (arith, beq_iff a b, beq_iff b a)

-- std::string::find for one character: the index of the first occurrence, none for npos.
unfoldable pub find_char : ℕ → Bytes → Option ℕ
find_char c [] = none
find_char c (x ∷ s) = if x == c then some 0 else Option.map suc (find_char c s)

abbrev pub differs : ℕ → ℕ → Bool
differs c x = not (x == c)

pub find_char-append :
    (c : ℕ) {p : Bytes} (rest : Bytes)
    → AllTrue (differs c) p
    → find_char c (p ++ (c ∷ rest)) ≡ some (length p)
unfolding find_char
find_char-append c rest nil = ground arith
find_char-append c rest (cons {x} {xs} h t) = ground (arith, find_char-append c rest t)

pub find_char-none : (c : ℕ) {p : Bytes} → AllTrue (differs c) p → find_char c p ≡ none
unfolding find_char
find_char-none c nil = refl
find_char-none c (cons {x} {xs} h t) = ground (arith, find_char-none c t)

pub find_char_skip :
    (c : ℕ) {p : Bytes} (q : Bytes)
    → AllTrue (differs c) p
    → find_char c (p ++ q) ≡ Option.map (◌+◌ (length p)) (find_char c q)
unfolding find_char
find_char_skip c q nil = ground arith
find_char_skip c q (cons {x} {xs} h t) = ground (arith, find_char_skip c q t)

-- std::string::compare by bytes.
unfoldable pub compare_bytes : Bytes → Bytes → Ordering
compare_bytes [] [] = Ordering.eq
compare_bytes [] (_ ∷ _) = Ordering.lt
compare_bytes (_ ∷ _) [] = Ordering.gt
compare_bytes (x ∷ a) (y ∷ b) = elim (compare x y) [
  | Ordering.eq ↦ compare_bytes a b
  | Ordering.lt ↦ Ordering.lt
  | Ordering.gt ↦ Ordering.gt
]

pub compare_bytes-eq_iff : (a b : Bytes) → (compare_bytes a b ≡ Ordering.eq) ↔ (a ≡ b)
unfolding compare_bytes
compare_bytes-eq_iff [] [] = ground arith
compare_bytes-eq_iff (x ∷ a) (y ∷ b) = ground (arith, compare_bytes-eq_iff a b)
compare_bytes-eq_iff _ _ = ground arith

unfoldable pub starts_with : Bytes → Bytes → Bool
starts_with [] s = true
starts_with (x ∷ p) [] = false
starts_with (x ∷ p) (y ∷ s) = x == y && starts_with p s

pub starts_with-take : (p s : Bytes) → starts_with p s ≡ true → take (length p) s ≡ p
unfolding starts_with
starts_with-take [] s h = refl
starts_with-take (x ∷ p) [] h = cc
starts_with-take (x ∷ p) (y ∷ s) h = ground (arith, starts_with-take p s)

-- std::string::rfind for one character, as the text before it and the text behind it.
unfoldable pub split_last : ℕ → Bytes → Option (Bytes × Bytes)
split_last c [] = none
split_last c (x ∷ s) = elim (split_last c s) [
  | some (before, behind) ↦ some (x ∷ before, behind)
  | none ↦ if x == c then some ([], s) else none
]

-- ===== src/Common/Lists.antt =====
-- Lists measured and cut by native numbers, and predicates on all members.
use Prim.Native.Nat.{ℕ, zero, suc, ◌+◌}
use mathlib.Core.Path.{◌≡◌, refl, ap}
use mathlib.Core.Bool.{Bool, true}
use mathlib.Core.List.{List, [], ◌∷◌, ◌++◌}
use native.Mathlib.Numerals.{add-one}
use native.Mathlib.Omega.{arith}

module _ {ℓ} {A : Type ℓ} where
  abbrev pub length : List A → ℕ
  length [] = 0
  length (x ∷ xs) = suc (length xs)

  abbrev pub take : ℕ → List A → List A
  take zero xs = []
  take (suc n) [] = []
  take (suc n) (x ∷ xs) = x ∷ take n xs

  -- Element i, or what stands for none.
  abbrev pub at_or : A → List A → ℕ → A
  at_or z [] i = z
  at_or z (x ∷ xs) zero = x
  at_or z (x ∷ xs) (suc i) = at_or z xs i

  abbrev pub drop : ℕ → List A → List A
  drop zero xs = xs
  drop (suc n) [] = []
  drop (suc n) (x ∷ xs) = drop n xs

  pub length-append : (xs ys : List A) → length (xs ++ ys) ≡ length xs + length ys
  length-append [] ys = omega arith
  length-append (x ∷ xs) ys = omega (arith, length-append xs ys)

  pub take-append : (xs ys : List A) → take (length xs) (xs ++ ys) ≡ xs
  take-append [] ys = refl
  take-append (x ∷ xs) ys = ap (◌∷◌ x) (take-append xs ys)

  pub drop-append : (xs ys : List A) → drop (length xs) (xs ++ ys) ≡ ys
  drop-append [] ys = refl
  drop-append (x ∷ xs) ys = drop-append xs ys

  pub take-length : (xs : List A) → take (length xs) xs ≡ xs
  take-length [] = refl
  take-length (x ∷ xs) = ap (◌∷◌ x) (take-length xs)

  pub take-append_eq : {k : ℕ} (xs ys : List A) → k ≡ length xs → take k (xs ++ ys) ≡ xs
  take-append_eq xs ys h = rw h (take-append xs ys)

  pub take-length_eq : {k : ℕ} (xs : List A) → k ≡ length xs → take k xs ≡ xs
  take-length_eq xs h = rw h (take-length xs)

module _ {ℓ} {A : Type ℓ} where
  pub drop-append_next :
      (xs : List A) (y : A) (ys : List A) → drop (length xs + 1) (xs ++ (y ∷ ys)) ≡ ys
  drop-append_next xs y ys = rw add-one (go xs)
    where
      go : (zs : List A) → drop (suc (length zs)) (zs ++ (y ∷ ys)) ≡ ys
      go [] = refl
      go (z ∷ zs) = go zs

-- A Boolean predicate that holds of every member.
module _ {ℓ} {A : Type ℓ} where
  pub data AllTrue (p : A → Bool) : List A → Type ℓ where
    nil : AllTrue p []
    cons : {x : A} {xs : List A} → p x ≡ true → AllTrue p xs → AllTrue p (x ∷ xs)

  pub AllTrue-append :
      {p : A → Bool} {xs : List A} (ys : List A)
      → AllTrue p xs
      → AllTrue p ys
      → AllTrue p (xs ++ ys)
  AllTrue-append ys nil k = k
  AllTrue-append ys (cons h t) k = cons h (AllTrue-append ys t k)

  pub AllTrue-mono :
      {p q : A → Bool} {xs : List A}
      → ((x : A) → p x ≡ true → q x ≡ true)
      → AllTrue p xs
      → AllTrue q xs
  AllTrue-mono f nil = nil
  AllTrue-mono f (cons {x} h t) = cons (f x h) (AllTrue-mono f t)

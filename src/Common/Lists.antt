-- ===== src/Common/Lists.antt =====
-- Lists measured by native numbers, under the library's names.
use Prim.Native.Nat.{ℕ, zero, suc, ◌+◌, ◌≤◌}
use mathlib.Core.Path.{◌≡◌, refl, ap}
use mathlib.Core.List.{List, [], ◌∷◌, ◌++◌}
use mathlib.Core.Option.{Option, none, some}
use native.Mathlib.Omega.{arith}

module _ {ℓ} {A : Type ℓ} where
  abbrev pub length : List A → ℕ
  length [] = 0
  length (x ∷ xs) = suc (length xs)

  abbrev pub get_elem? : List A → ℕ → Option A
  get_elem? [] i = none
  get_elem? (x ∷ xs) zero = some x
  get_elem? (x ∷ xs) (suc i) = get_elem? xs i

  pub length-append : (xs ys : List A) → length (xs ++ ys) ≡ length xs + length ys
  length-append [] ys = omega arith
  length-append (x ∷ xs) ys = omega (arith, length-append xs ys)

  -- What is left of a list behind its first element.
  abbrev pub tail : List A → List A
  tail [] = []
  tail (x ∷ xs) = xs

  abbrev pub head? : List A → Option A
  head? [] = none
  head? (x ∷ xs) = some x

  abbrev pub take : List A → ℕ → List A
  take xs zero = []
  take [] (suc n) = []
  take (x ∷ xs) (suc n) = x ∷ take xs n

  pub length-take_le : (xs : List A) (n : ℕ) → length (take xs n) ≤ length xs
  length-take_le xs zero = omega arith
  length-take_le [] (suc n) = omega arith
  length-take_le (x ∷ xs) (suc n) = let shorter = length-take_le xs n in omega arith

  abbrev pub drop : List A → ℕ → List A
  drop xs zero = xs
  drop [] (suc n) = []
  drop (x ∷ xs) (suc n) = drop xs n

  pub take-drop : (xs : List A) (n : ℕ) → take xs n ++ drop xs n ≡ xs
  take-drop xs zero = refl
  take-drop [] (suc n) = refl
  take-drop (x ∷ xs) (suc n) = ap (λ rest. x ∷ rest) (take-drop xs n)

  pub length-take : (xs : List A) (n : ℕ) → n ≤ length xs → length (take xs n) ≡ n
  length-take xs zero h = refl
  length-take [] (suc n) h = omega (arith, h)
  length-take (x ∷ xs) (suc n) h = let rest = length-take xs n (omega arith) in omega arith

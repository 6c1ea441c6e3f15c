-- ===== src/Protection/RuntimeGuard/Counts.antt =====
-- How many operations use a generation.
use webot_msg.Common.{
  ℕ, zero, suc, ◌+◌, ◌≤◌, ◌<◌, ◌≡◌, ◌≢◌, refl, false, ◌&&◌, not, ◌==◌, ==_iff, ap, inl, inr, arith,
  if◌then◌else◌, Bool-cases,
}
use webot_msg.Protection.RuntimeGuard.{RuntimeOperation, set}

-- One for an operation that is not done and works on the generation.
unfoldable pub uses : ℕ → RuntimeOperation → ℕ
uses a operation = if not operation.finished && (operation.generation == a) then 1 else 0

abbrev pub in_use : ℕ → ℕ → (ℕ → RuntimeOperation) → ℕ
in_use a zero operations = 0
in_use a (suc n) operations = in_use a n operations + uses a (operations n)

pub in_use-set-later :
    (a n i : ℕ) (o : RuntimeOperation) (f : ℕ → RuntimeOperation)
    → n ≤ i
    → in_use a n (set f i o) ≡ in_use a n f
in_use-set-later a zero i o f h = refl
in_use-set-later a (suc n) i o f h =
    let rest = in_use-set-later a n i o f (omega arith) in ground arith

pub in_use-set :
    (a n i : ℕ) (o : RuntimeOperation) (f : ℕ → RuntimeOperation)
    → i < n
    → in_use a n (set f i o) + uses a (f i) ≡ in_use a n f + uses a o
in_use-set a zero i o f h = absurd (omega arith)
in_use-set a (suc n) i o f h = elim (Bool-cases (n == i)) [
  | inl e ↦
      let same = (==_iff n i).0 e in
      let later = in_use-set-later a n i o f (omega (arith, same)) in
      let read = ap (λ k. uses a (f k)) same in simp e (omega (arith, later, read))
  | inr e ↦
      let other : n ≢ i = λ q. ground arith in
      let rest = in_use-set a n i o f (omega (arith, other)) in simp e (omega (arith, rest))
]

uses-other : (a : ℕ) (o : RuntimeOperation) → o.generation < a → uses a o ≡ 0
unfolding uses
uses-other a o h = ground arith

pub uses-busy : (o : RuntimeOperation) → o.finished ≡ false → uses o.generation o ≡ 1
unfolding uses
uses-busy o h = ground arith

-- Operations that work on other generations do not count.
pub in_use-none :
    (a n : ℕ) (f : ℕ → RuntimeOperation)
    → ((i : ℕ) → i < n → (f i).generation < a)
    → in_use a n f ≡ 0
in_use-none a zero f h = refl
in_use-none a (suc n) f h =
    let rest = in_use-none a n f (λ i b. h i (omega arith)) in
    let here = uses-other a (f n) (h n (omega arith)) in omega (arith, rest, here)

-- An operation at work is counted.
pub in_use_positive :
    (n i : ℕ) (f : ℕ → RuntimeOperation)
    → i < n
    → (f i).finished ≡ false
    → 0 < in_use (f i).generation n f
in_use_positive zero i f h busy = absurd (omega arith)
in_use_positive (suc n) i f h busy = elim (Bool-cases (n == i)) [
  | inl e ↦
      let read = ap (λ k. uses (f i).generation (f k)) ((==_iff n i).0 e) in
      omega (arith, read, uses-busy (f i) busy)
  | inr e ↦
      let other : n ≢ i = λ q. ground arith in
      let rest = in_use_positive n i f (omega (arith, other)) busy in omega (arith, rest)
]

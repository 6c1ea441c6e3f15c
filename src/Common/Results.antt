-- ===== src/Common/Results.antt =====
-- The error values of Go as the program builds and inspects them, and a result with one.
use Prim.Native.Nat.{ℕ}
use mathlib.Core.Path.{◌≡◌, refl}
use mathlib.Core.Logic.{◌⊎◌, inl, inr}
use mathlib.Core.Bool.{Bool, true, false}
use webot_msg.Common.Texts.{Text}

-- `rejection` is `*protection.RejectionError`, with or without the error that it wraps; `wrapped`
-- is `fmt.Errorf` with `%w`; `failed` is an error with a text only; `outer` comes from outside.
pub data Error : Type 0 where
  rejection : Text → Error
  rejection_by : Text → Error → Error
  wrapped : Text → Error → Error
  failed : Text → Error
  outer : ℕ → Error

pub data Result {ℓ} (A : Type ℓ) : Type ℓ where
  ok : A → Result A
  err : Error → Result A

infixl 5 ◌>>=◌
abbrev pub ◌>>=◌ {ℓ κ} : {A : Type ℓ} {B : Type κ} → Result A → (A → Result B) → Result B
ok a >>= f = f a
err e >>= f = err e

-- `if test { return fmt.Errorf(text) }`
abbrev pub refuse : Bool → Text → Result (Unit {0})
refuse true text = err (failed text)
refuse false text = ok tt

abbrev pub is_ok {ℓ} : {A : Type ℓ} → Result A → Bool
is_ok (ok a) = true
is_ok (err e) = false

-- A step that gives no value, and what follows it.
infixl 5 ◌>>◌
abbrev pub ◌>>◌ {κ} : {C : Type κ} → Result (Unit {0}) → Result C → Result C
err e >> next = err e
ok done >> next = next

-- `fmt.Errorf` with `%w` on an error that comes up.
abbrev pub or_wrap {ℓ} : {A : Type ℓ} → Text → Result A → Result A
or_wrap message (ok a) = ok a
or_wrap message (err e) = err (wrapped message e)

-- A chain that ended well: its first step did, and so did the rest from its value.
pub bind_ok {κ ℓ} :
    {C : Type κ} {A : Type ℓ} {out : C} (step : Result A) (next : A → Result C)
    → (step >>= next) ≡ ok out
    → (value : A) × ((step ≡ ok value) × (next value ≡ ok out))
bind_ok (err e) next h = cc
bind_ok (ok value) next h = (value, (refl, h))

pub Result-cases {ℓ} :
    {A : Type ℓ} (m : Result A) → ((e : Error) × (m ≡ err e)) ⊎ ((a : A) × (m ≡ ok a))
Result-cases (ok a) = inr (a, refl)
Result-cases (err e) = inl (e, refl)

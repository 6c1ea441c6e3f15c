-- ===== src/Common/Actions.antt =====
-- Calls that read and change a state and can fail: what a Go method with an error result is.
use mathlib.Core.Bool.{Bool, true, false}
use webot_msg.Common.Texts.{Text}
use webot_msg.Common.Results.{Result, ok, err, Error, wrapped}

abbrev pub Action {ℓ} : Type 0 → Type ℓ → Type ℓ
Action W A = W → Result A × W

abbrev pub return {ℓ} : {W : Type 0} {A : Type ℓ} → A → Action W A
return a w = (ok a, w)

abbrev pub fail {ℓ} : {W : Type 0} {A : Type ℓ} → Error → Action W A
fail e w = (err e, w)

-- What follows a call, unless it failed.
abbrev pub continue {ℓ κ} :
    {W : Type 0} {A : Type ℓ} {B : Type κ} → Result A × W → (A → Action W B) → Result B × W
continue (ok a, w) f = f a w
continue (err e, w) f = (err e, w)

infixl 5 ◌>>=◌ ◌>>◌
abbrev pub ◌>>=◌ {ℓ κ} :
    {W : Type 0} {A : Type ℓ} {B : Type κ} → Action W A → (A → Action W B) → Action W B
(m >>= f) w = continue (m w) f

abbrev pub ◌>>◌ {ℓ} : {W : Type 0} {B : Type ℓ} → Action W (Unit {0}) → Action W B → Action W B
(m >> k) w = continue (m w) (λ u. k)

-- A result that needs no state.
abbrev pub lift {ℓ} : {W : Type 0} {A : Type ℓ} → Result A → Action W A
lift r w = (r, w)

-- `fmt.Errorf` with `%w` on the error of a call.
abbrev pub label {ℓ} : {W : Type 0} {A : Type ℓ} → Text → Result A × W → Result A × W
label text (ok a, w) = (ok a, w)
label text (err e, w) = (err (wrapped text e), w)

abbrev pub labelled {ℓ} : {W : Type 0} {A : Type ℓ} → Text → Action W A → Action W A
labelled text m w = label text (m w)

-- `if test { m }`
abbrev pub when : {W : Type 0} → Bool → Action W (Unit {0}) → Action W (Unit {0})
when true m = m
when false m = return tt

-- ===== src/Strconv/RoundTrip.antt =====
-- Reading back what was printed.
use webot_msg.Common.{
  false, ℕ, zero, suc, ◌+◌, ◌/◌, ◌%◌, ◌≤◌, ◌≡◌, refl, some, [], ◌∷◌, arith, ◌==◌, Text, inl, inr,
  Bool-cases,
}
use webot_msg.Common.Int.{ℤ, pos, negsuc, FitsInt64}
use webot_msg.Strconv.{digits, format_nat, itoa, scan, magnitude, positive, negative, atoi}

scan-digits : (rounds n : ℕ) (out : Text) → n ≤ rounds → scan (digits rounds n out) 0 ≡ scan out n
unfolding digits scan
scan-digits zero n out h = ground arith
scan-digits (suc rounds) n out h =
    ground (arith, scan-digits rounds (n / 10) ((b'0' + n % 10) ∷ out))

-- The first character of a print is a digit.
data StartsWithDigit : Text → Type 0 where
  starts : (c : ℕ) (s : Text) → b'0' ≤ c → c ≤ b'9' → StartsWithDigit (c ∷ s)

digits-StartsWithDigit :
    (rounds n : ℕ) (c : ℕ) (s : Text)
    → b'0' ≤ c
    → c ≤ b'9'
    → StartsWithDigit (digits rounds n (c ∷ s))
unfolding digits
digits-StartsWithDigit zero n c s lo hi = starts c s lo hi
digits-StartsWithDigit (suc rounds) n c s lo hi = elim (Bool-cases (n == 0)) [
  | inl done ↦ rw done (starts c s lo hi)
  | inr more ↦
      rw more
        (digits-StartsWithDigit rounds (n / 10) (b'0' + n % 10) (c ∷ s) (omega arith) (omega arith))
]

digits_pos-StartsWithDigit : (n : ℕ) → (n == 0) ≡ false → StartsWithDigit (digits n n [])
unfolding digits
digits_pos-StartsWithDigit zero h = absurd (ground arith)
digits_pos-StartsWithDigit (suc n) h =
    rw h (digits-StartsWithDigit n (suc n / 10) (b'0' + suc n % 10) [] (omega arith) (omega arith))

format_nat-StartsWithDigit : (n : ℕ) → StartsWithDigit (format_nat n)
unfolding format_nat
format_nat-StartsWithDigit n = elim (Bool-cases (n == 0)) [
  | inl zeroed ↦ rw zeroed (starts b'0' [] (omega arith) (omega arith))
  | inr more ↦ rw more (digits_pos-StartsWithDigit n more)
]

scan-format_nat : (n : ℕ) → scan (format_nat n) 0 ≡ some n
unfolding format_nat scan
scan-format_nat n = ground (arith, scan-digits n n [])

magnitude_lem : {s : Text} → StartsWithDigit s → magnitude s ≡ scan s 0
unfolding magnitude
magnitude_lem (starts c s lo hi) = refl

atoi_unsigned : {s : Text} → StartsWithDigit s → atoi s ≡ positive (magnitude s)
unfolding atoi
atoi_unsigned (starts c s lo hi) = ground arith

atoi_minus : (s : Text) → atoi (b'-' ∷ s) ≡ negative (magnitude s)
unfolding atoi
atoi_minus s = refl

-- Every `int` is read back from its decimal print.
pub atoi-itoa : (n : ℤ) → FitsInt64 n → atoi (itoa n) ≡ some n
unfolding itoa positive negative
atoi-itoa (pos n) h =
    rw
      (
        atoi_unsigned (format_nat-StartsWithDigit n),
        magnitude_lem (format_nat-StartsWithDigit n),
        scan-format_nat n,
      )
      (ground arith)
atoi-itoa (negsuc n) h =
    rw
      (
        atoi_minus (format_nat (suc n)),
        magnitude_lem (format_nat-StartsWithDigit (suc n)),
        scan-format_nat (suc n),
      )
      (ground arith)

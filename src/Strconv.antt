-- ===== src/Strconv.antt =====
-- Go's `strconv.Atoi` and the decimal print of integers (`%d`, `strconv.FormatInt`), on which the
-- replies of scripts, the audit record and the status footer rest.
pub mod RoundTrip
use webot_msg.Common.{
  ℕ, zero, suc, ◌+◌, ◌-◌, ◌*◌, ◌/◌, ◌%◌, ◌^◌, ◌≡◌, refl, ◌||◌, Option, none, some, [], ◌∷◌, ltb,
  leb, ◌==◌, if◌then◌else◌, Text, codes,
}
use webot_msg.Common.Int.{ℤ, pos, negsuc, sub_ℕ}

-- The first argument bounds the rounds; `n` rounds are enough for `n`.
digits : ℕ → ℕ → Text → Text
digits zero n out = out
digits (suc rounds) n out =
    let more = digits rounds (n / 10) ((b'0' + n % 10) ∷ out) in if n == 0 then out else more

format_nat : ℕ → Text
unfolding digits
format_nat n = if n == 0 then b'0' ∷ [] else digits n n []

unfoldable pub itoa : ℤ → Text
unfolding format_nat
itoa (pos n) = format_nat n
itoa (negsuc n) = b'-' ∷ format_nat (suc n)

scan : Text → ℕ → Option ℕ
scan [] n = some n
scan (c ∷ s) n = if ltb c b'0' || ltb b'9' c then none else scan s (n * 10 + (c - b'0'))

-- A text with no digit is a syntax error.
magnitude : Text → Option ℕ
unfolding scan
magnitude [] = none
magnitude (c ∷ s) = scan (c ∷ s) 0

positive : Option ℕ → Option ℤ
positive none = none
positive (some n) = if ltb n (2 ^ 63) then some (pos n) else none

negative : Option ℕ → Option ℤ
negative none = none
negative (some n) = if leb n (2 ^ 63) then some (sub_ℕ 0 n) else none

-- A value that `int` cannot hold is a range error.
unfoldable pub atoi : Text → Option ℤ
unfolding magnitude positive negative
atoi [] = none
atoi (c ∷ s) =
    if c == b'-'
    then negative (magnitude s)
    else if c == b'+'
    then positive (magnitude s)
    else positive (magnitude (c ∷ s))

pub data Scanned : Type 0 where
  scanned : ℕ → Scanned
  no_number too_large : Scanned

-- `ParseUint` stops at the first digit with which the number no longer fits in 64 bits.
scan_uint : Text → ℕ → Scanned
scan_uint [] n = scanned n
scan_uint (c ∷ s) n =
    let m = n * 10 + (c - b'0') in
    let rest = scan_uint s m in
    if ltb c b'0' || ltb b'9' c then no_number else if leb (2 ^ 64) m then too_large else rest

scan_digits : Text → Scanned
unfolding scan_uint
scan_digits [] = no_number
scan_digits (c ∷ s) = scan_uint (c ∷ s) 0

nearest_positive : Scanned → ℤ
nearest_positive (scanned n) = if ltb n (2 ^ 63) then pos n else pos (2 ^ 63 - 1)
nearest_positive no_number = pos 0
nearest_positive too_large = pos (2 ^ 63 - 1)

nearest_negative : Scanned → ℤ
nearest_negative (scanned n) = if leb n (2 ^ 63) then sub_ℕ 0 n else negsuc (2 ^ 63 - 1)
nearest_negative no_number = pos 0
nearest_negative too_large = negsuc (2 ^ 63 - 1)

-- The number that `Atoi` returns, whatever its error: 0 for what is no number, and the nearest
-- `int` for what is out of range.
unfoldable pub atoi_value : Text → ℤ
unfolding scan_digits nearest_positive nearest_negative
atoi_value [] = pos 0
atoi_value (c ∷ s) =
    if c == b'-'
    then nearest_negative (scan_digits s)
    else if c == b'+'
    then nearest_positive (scan_digits s)
    else nearest_positive (scan_digits (c ∷ s))

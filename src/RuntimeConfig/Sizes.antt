-- ===== src/RuntimeConfig/Sizes.antt =====
-- internal/runtimeconfig/config.go, `ParseSize`: a number with a unit, in bytes.
use webot_msg.Common.{
  Result-cases, ℕ, ◌≡◌, refl, Bool, false, ◌&&◌, Option, none, some, [], ◌∷◌, ◌≤◌, ◌<◌, ◌^◌, ◌-◌,
  ◌*◌, ◌/◌, arith, leb, ltb, if◌then◌else◌, Text, codes, text_eq, is_empty, failed, Result, ok, err,
  ◌>>=◌, ◌>>◌, refuse, Bool-cases, inl, inr,
}
use webot_msg.Common.Int.{ℤ, pos, negsuc, ◌*ℤ◌, ◌<ℤ◌, int64, leb_ℤ, ltb_ℤ, int64-fits}
use webot_msg.Common.Strings.{trim_space, to_upper}
use native.Mathlib.Nat.{le-div_iff_mul-le, mul-pos}
use webot_msg.Strconv.{atoi}

unfoldable pub is_digit : ℕ → Bool
is_digit c = leb b'0' c && leb c b'9'

unfoldable pub leading_digits : Text → Text
leading_digits [] = []
leading_digits (c ∷ s) = let rest = leading_digits s in if is_digit c then c ∷ rest else []

unfoldable pub after_digits : Text → Text
after_digits [] = []
after_digits (c ∷ s) = let rest = after_digits s in if is_digit c then rest else c ∷ s

-- `strconv.ParseInt(digits, 10, 64)`
unfoldable pub parse_int : Text → Result ℤ
parse_int s = elim (atoi s) [ none ↦ err (failed (codes "value out of range")) | some n ↦ ok n ]

unfoldable pub multiplier : Text → Option ℕ
multiplier unit =
    if text_eq unit (codes "B")
    then some 1
    else if text_eq unit (codes "KB")
    then some 1024
    else if text_eq unit (codes "MB")
    then some (1024 * 1024)
    else if text_eq unit (codes "GB")
    then some (1024 * 1024 * 1024)
    else if text_eq unit (codes "TB")
    then some (1024 * 1024 * 1024 * 1024)
    else none

abbrev pub or_bytes : Text → Text
or_bytes unit = if is_empty unit then codes "B" else unit

-- The unit behind the digits, in capitals.
unfoldable pub unit_of : Text → Text
unit_of value = or_bytes (to_upper (trim_space (after_digits value)))

unfoldable pub times : ℤ → Option ℕ → Result ℤ
times number none = err (failed (codes "unsupported unit"))
times number (some k) = do
  refuse (ltb_ℤ (pos ((2 ^ 63 - 1) / k)) number) (codes "value is too large")
  ok (int64 (number *ℤ k))

unfoldable pub parse_size : Text → Result ℤ
parse_size text = do
  let value = trim_space text
  refuse (is_empty value) (codes "must not be empty")
  let digits = leading_digits value
  refuse (is_empty digits) (codes "must start with a positive integer")
  number ← parse_int digits
  refuse (leb_ℤ number (pos 0)) (codes "must be greater than zero")
  times number (multiplier (unit_of value))

-- A known unit.
multiplier_positive : (unit : Text) {k : ℕ} → multiplier unit ≡ some k → 0 < k
unfolding multiplier
multiplier_positive unit h = ground arith

-- `number` units of `k` bytes are `bytes`, without a wrap.
pub record Bytes (number k : ℕ) (bytes : ℤ) : Type 0 where
  pub positive_number : 0 < number
  pub product : bytes ≡ pos (number * k)
  pub positive : pos 0 <ℤ bytes
  pub no_wrap : number * k < 2 ^ 63

fits : (n k : ℕ) → 0 < k → n ≤ (2 ^ 63 - 1) / k → n * k ≤ 2 ^ 63 - 1
fits n k p h = (le-div_iff_mul-le p).0 h

product_lem : (n k : ℕ) → pos n *ℤ k ≡ pos (n * k)
unfolding ◌*ℤ◌
product_lem n k = ground arith

times_lem :
    (n : ℕ) (k : ℕ) {bytes : ℤ}
    → 0 < n
    → 0 < k
    → times (pos n) (some k) ≡ ok bytes
    → Bytes n k bytes
unfolding times
times_lem n k p q h = elim (Bool-cases (ltb ((2 ^ 63 - 1) / k) n)) [
  | inl large ↦ ground arith
  | inr low ↦
      let bound = fits n k q (ground arith) in
      let same = product_lem n k in
      let small : int64 (pos n *ℤ k) ≡ pos (n * k) =
        rw same (int64-fits (pos (n * k)) (ground arith)) in
      let lower = mul-pos p q in ground arith
]

-- What a size that is read consists of.
pub record Size (value : Text) (bytes : ℤ) : Type 0 where
  pub number : ℕ
  pub factor : ℕ
  pub number_read : atoi (leading_digits value) ≡ some (pos number)
  pub unit_known : multiplier (unit_of value) ≡ some factor
  pub bytes_right : Bytes number factor bytes

parse_int_lem : (s : Text) {n : ℤ} → parse_int s ≡ ok n → atoi s ≡ some n
unfolding parse_int
parse_int_lem s h = ground arith

times-Size :
    (value : Text) (n : ℤ) (k : Option ℕ) {bytes : ℤ}
    → atoi (leading_digits value) ≡ some n
    → multiplier (unit_of value) ≡ k
    → leb_ℤ n (pos 0) ≡ false
    → times n k ≡ ok bytes
    → Size value bytes
unfolding times
times-Size value n none a m p h = ground arith
times-Size value (negsuc n) (some k) a m p h = ground arith
times-Size value (pos n) (some k) a m p h = record {
  number = n;
  factor = k;
  number_read = a;
  unit_known = m;
  bytes_right = times_lem n k (ground arith) (multiplier_positive (unit_of value) m) h;
}

-- A size that `ParseSize` accepts starts, between spaces, with digits that `Atoi` reads as a
-- positive number, ends with a known unit or none, and is the number times the bytes of the unit,
-- which is positive and less than 2 ^ 63, so that the product does not wrap.
pub parse_size_lem :
    (text : Text) {bytes : ℤ} → parse_size text ≡ ok bytes → Size (trim_space text) bytes
unfolding parse_size
parse_size_lem text h =
    let value = trim_space text in
    elim (Result-cases (parse_int (leading_digits value))) [
      | inl (e, q) ↦ ground arith
      | inr (n, q) ↦
          times-Size value n (multiplier (unit_of value)) (parse_int_lem (leading_digits value) q)
            refl (ground arith) (ground arith)
    ]

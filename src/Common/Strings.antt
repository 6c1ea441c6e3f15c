-- ===== src/Common/Strings.antt =====
-- What the program uses of Go's package `strings`, on code points.
use webot_msg.Common.Tests.{leb, ◌==◌, if◌then◌else◌}
use webot_msg.Common.Texts.{Text}
use Prim.Native.Nat.{ℕ, ◌-◌}
use mathlib.Core.Bool.{Bool, true, false, ◌&&◌, ◌||◌}
use mathlib.Core.List.{List, [], ◌∷◌}

-- `unicode.IsSpace`
unfoldable pub is_space : ℕ → Bool
is_space c =
    (leb 9 c && leb c 13)
    || c == 32
    || c == 0x85
    || c == 0xA0
    || c == 0x1680
    || (leb 0x2000 c && leb c 0x200A)
    || c == 0x2028
    || c == 0x2029
    || c == 0x202F
    || c == 0x205F
    || c == 0x3000

unfoldable pub trim_left : Text → Text
trim_left [] = []
trim_left (c ∷ s) = let rest = trim_left s in if is_space c then rest else c ∷ s

abbrev pub unless_empty : (ℕ → Bool) → ℕ → Text → Text
unless_empty drop c [] = if drop c then [] else c ∷ []
unless_empty drop c (d ∷ s) = c ∷ d ∷ s

-- Without the code points at the end that pass the test.
unfoldable pub trim_right : (ℕ → Bool) → Text → Text
trim_right drop [] = []
trim_right drop (c ∷ s) = unless_empty drop c (trim_right drop s)

unfoldable pub trim_space : Text → Text
trim_space s = trim_right is_space (trim_left s)

unfoldable pub has_prefix : Text → Text → Bool
has_prefix s [] = true
has_prefix [] (d ∷ p) = false
has_prefix (c ∷ s) (d ∷ p) = c == d && has_prefix s p

unfoldable pub drop_length : Text → Text → Text
drop_length s [] = s
drop_length [] (d ∷ p) = []
drop_length (c ∷ s) (d ∷ p) = drop_length s p

-- `strings.TrimPrefix`
unfoldable pub trim_prefix : Text → Text → Text
trim_prefix s p = if has_prefix s p then drop_length s p else s

unfoldable pub contains : Text → Text → Bool
contains [] p = has_prefix [] p
contains (c ∷ s) p = has_prefix (c ∷ s) p || contains s p

-- `strings.ToUpper`, whose effect on letters beyond ASCII no unit of a size depends on.
abbrev pub upper : ℕ → ℕ
upper c = if leb b'a' c && leb c b'z' then c - 32 else c

unfoldable pub to_upper : Text → Text
to_upper [] = []
to_upper (c ∷ s) = upper c ∷ to_upper s

abbrev pub add_to_first : ℕ → List Text → List Text
add_to_first c [] = (c ∷ []) ∷ []
add_to_first c (part ∷ parts) = (c ∷ part) ∷ parts

-- `strings.Split` by a separator of one code point.
unfoldable pub split : ℕ → Text → List Text
split sep [] = [] ∷ []
split sep (c ∷ s) = let rest = split sep s in if c == sep then [] ∷ rest else add_to_first c rest

abbrev pub start_field : Bool → ℕ → List Text → List Text
start_field true c parts = add_to_first c parts
start_field false c parts = (c ∷ []) ∷ parts

abbrev pub in_field : Text → Bool
in_field [] = false
in_field (c ∷ s) = if is_space c then false else true

-- `strings.Fields`
unfoldable pub fields_of : Text → List Text
fields_of [] = []
fields_of (c ∷ s) =
    let rest = fields_of s in if is_space c then rest else start_field (in_field s) c rest

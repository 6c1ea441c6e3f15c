-- ===== src/Control/Splitter.antt =====
-- internal/control/output_splitter.go: the bytes that arrive in chunks become lines, and what stands
-- behind the last line break is the prompt. Texts are lists of bytes here.
use webot_msg.Common.{
  ℕ, ◌≡◌, refl, ◌∙◌, ap, sym, Bool, false, not, List, [], ◌∷◌, ◌++◌, inl, inr, if◌then◌else◌, ◌==◌,
  Text, text_eq, Bool-cases, map, append_assoc,
}

pub record OutputSplitter : Type 0 where
  pub tail : Text

pub record OutputEvents : Type 0 where
  pub lines : List Text
  pub prompt : Text
  pub prompt_changed : Bool

abbrev pub newline : ℕ
newline = 10

-- `strings.TrimSuffix(line, "\r")`
unfoldable pub trim_return : Text → Text
trim_return [] = []
trim_return (c ∷ []) = if c == 13 then [] else c ∷ []
trim_return (c ∷ (d ∷ s)) = c ∷ trim_return (d ∷ s)

abbrev pub on_first_line : ℕ → List Text × Text → List Text × Text
on_first_line c ([], rest) = ([], c ∷ rest)
on_first_line c (line ∷ lines, rest) = ((c ∷ line) ∷ lines, rest)

-- `strings.Split(data, "\n")`: all parts but the last, and the last.
unfoldable pub split_lines : Text → List Text × Text
split_lines [] = ([], [])
split_lines (c ∷ s) =
    let (lines, rest) = split_lines s in
    if c == newline then ([] ∷ lines, rest) else on_first_line c (lines, rest)

-- A chunk that begins with a line break drops the prompt.
abbrev joined : Text → ℕ → Text → Text
joined tail c p = if c == newline then c ∷ p else tail ++ c ∷ p

unfoldable pub push : Text → OutputSplitter → OutputEvents × OutputSplitter
push [] s = (record { lines = []; prompt = s.tail; prompt_changed = false }, s)
push (c ∷ p) s =
    let (lines, rest) = split_lines (joined s.tail c p) in
    (
      record {
        lines = map trim_return lines;
        prompt = rest;
        prompt_changed = not (text_eq rest s.tail);
      },
      record { tail = rest },
    )

unfoldable pub reset_tail : OutputSplitter → OutputSplitter
reset_tail s = record { tail = [] }

-- The lines of a text, then those of what follows.
abbrev continued : List Text × Text → Text → List Text × Text
continued (lines, rest) b = (lines ++ (split_lines (rest ++ b)).0, (split_lines (rest ++ b)).1)

on_first_line-continued :
    (c : ℕ) (p : List Text × Text) (b : Text)
    → (c == newline) ≡ false
    → on_first_line c (continued p b) ≡ continued (on_first_line c p) b
unfolding split_lines
on_first_line-continued c ([], rest) b e = simp e refl
on_first_line-continued c (line ∷ lines, rest) b e = refl

split_lines-append : (a b : Text) → split_lines (a ++ b) ≡ continued (split_lines a) b
unfolding split_lines
split_lines-append [] b = refl
split_lines-append (c ∷ a) b = elim (Bool-cases (c == newline)) [
  | inl e ↦ simp (e, split_lines-append a b) refl
  | inr e ↦ simp (e, split_lines-append a b) (on_first_line-continued c (split_lines a) b e)
]

map-append : (f : Text → Text) (xs ys : List Text) → map f (xs ++ ys) ≡ map f xs ++ map f ys
map-append f [] ys = refl
map-append f (x ∷ xs) ys = ap (λ zs. f x ∷ zs) (map-append f xs ys)

joined-append : (tail p q : Text) (c : ℕ) → joined tail c (p ++ q) ≡ joined tail c p ++ q
joined-append tail p q c = elim (Bool-cases (c == newline)) [
  | inl e ↦ simp e refl
  | inr e ↦ simp e (sym (append_assoc tail (c ∷ p) q))
]

-- Two chunks, the second of which does not begin with a line break, give the lines that they give as
-- one, and leave the same prompt.
pub push-append :
    (c d : ℕ) (p q : Text) (s : OutputSplitter)
    → (d == newline) ≡ false
    → let first = push (c ∷ p) s in
      let second = push (d ∷ q) first.1 in
      let whole = push (c ∷ (p ++ d ∷ q)) s in
      (whole.0.lines ≡ first.0.lines ++ second.0.lines)
      × (whole.0.prompt ≡ second.0.prompt)
      × (whole.1 ≡ second.1)
unfolding push
push-append c d p q s e =
    let cut =
      ap split_lines (joined-append s.tail p (d ∷ q) c)
      ∙ split_lines-append (joined s.tail c p) (d ∷ q) in
    simp (e, cut) (map-append trim_return _ _, refl, refl)

-- ===== src/Console/Completion.antt =====
-- A completion only inserts text at the cursor.
use webot_msg.Common.{
  ℕ, zero, suc, ◌+◌, ◌-◌, ◌≤◌, ◌≡◌, refl, sym, ap, ◌∙◌, ◌⊎◌, inl, inr, Bool, true, false, ◌||◌,
  Option, none, some, List, [], ◌∷◌, ◌++◌, append_assoc, append-nil, length, length-append, take,
  drop, length-take, if◌then◌else◌, Text, codes, is_empty, ltb, Bool-cases, Option-cases, subst,
  arith,
}
use webot_msg.Common.Int.{pos, ltb_ℤ}
use webot_msg.Common.Strings.{has_prefix, is_space}
use webot_msg.Console.{
  CommandSpec, with_prefix, shrink, common_with, common_prefix, completed_line, complete_from,
  complete_word, with_space, name_from, complete_command_name, first_word, split_space, parts_of,
  split_last, subcommand_from, known, find_command_spec, names, command_specs, complete_parts,
  complete_command_line,
}

-- `w` starts with `p`.
abbrev pub Starts : Text → Text → Type 0
Starts p w = (rest : Text) × (w ≡ p ++ rest)

has_prefix-Starts : (w p : Text) → has_prefix w p ≡ true → Starts p w
unfolding has_prefix
has_prefix-Starts w [] h = (w, refl)
has_prefix-Starts [] (d ∷ p) h = ground arith
has_prefix-Starts (c ∷ w) (d ∷ p) h =
    let (rest, e) = has_prefix-Starts w p (ground arith) in
    let same : c ≡ d = ground arith in (rest, cc)

has_prefix_self : (p rest : Text) → has_prefix (p ++ rest) p ≡ true
unfolding has_prefix
has_prefix_self [] rest = refl
has_prefix_self (c ∷ p) rest = let e = has_prefix_self p rest in ground arith

take-append : (p s : Text) (n m : ℕ) → m ≡ length p + n → take (p ++ s) m ≡ p ++ take s n
take-append [] s n m h = let same : m ≡ n = omega (arith, h) in ap (λ k. take s k) same
take-append (c ∷ p) s n zero h = absurd (omega (arith, h))
take-append (c ∷ p) s n (suc m) h = ap (λ rest. c ∷ rest) (take-append p s n m (omega (arith, h)))

-- A text that starts with another is that text, or still starts with it when its end is taken off.
one_less : (p rest cur : Text) → cur ≡ p ++ rest → (cur ≡ p) ⊎ Starts p (take cur (length cur - 1))
one_less p [] cur e = inl (e ∙ append-nil p)
one_less p (c ∷ rest) cur e =
    let sum = length-append p (c ∷ rest) in
    let enough : length cur - 1 ≡ length p + length rest = omega (arith, ap length e, sum) in
    inr (
      take (c ∷ rest) (length rest),
      ap (λ s. take s (length cur - 1)) e
          ∙ take-append p (c ∷ rest) (length rest) (length cur - 1) enough,
    )

abbrev AllStart : Text → List Text → Type 0
AllStart p [] = Unit {0}
AllStart p (w ∷ words) = Starts p w × AllStart p words

with_prefix-AllStart : (p : Text) (words : List Text) → AllStart p (with_prefix p words)
unfolding with_prefix
with_prefix-AllStart p [] = tt
with_prefix-AllStart p (w ∷ words) = elim (Bool-cases (has_prefix w p)) [
  | inl e ↦ simp e (has_prefix-Starts w p e, with_prefix-AllStart p words)
  | inr e ↦ simp e (with_prefix-AllStart p words)
]

shrink-Starts :
    (rounds : ℕ) (p cur value : Text)
    → length cur ≤ rounds
    → Starts p cur
    → Starts p value
    → Starts p (shrink rounds cur value)
unfolding shrink
shrink-Starts zero [] cur value n s v = ([], refl)
shrink-Starts zero (c ∷ p) cur value n (rest, e) v = absurd (omega (arith, ap length e))
shrink-Starts (suc rounds) p cur value n (rest, e) (more, f) =
    elim (Bool-cases (has_prefix value cur)) [
      | inl h ↦ simp h (rest, e)
      | inr h ↦ elim (one_less p rest cur e) [
        | inl whole ↦
            let yes = ap (λ s. has_prefix s p) f ∙ has_prefix_self p more in
            let no = ap (λ s. has_prefix value s) (sym whole) ∙ h in ground arith
        | inr less ↦
            let known = length-take cur (length cur - 1) (omega arith) in
            let next =
              shrink-Starts rounds p (take cur (length cur - 1)) value (omega (arith, known)) less
                (more, f) in
            simp h next
      ]
    ]

common_with-Starts :
    (p cur : Text) (words : List Text)
    → Starts p cur
    → AllStart p words
    → Starts p (common_with cur words)
unfolding common_with
common_with-Starts p cur [] s a = s
common_with-Starts p cur (w ∷ words) s (v, a) =
    common_with-Starts p (shrink (length cur) cur w) words
      (shrink-Starts (length cur) p cur w (omega arith) s v) a

common_prefix-Starts :
    (p w : Text) (words : List Text) → AllStart p (w ∷ words) → Starts p (common_prefix (w ∷ words))
unfolding common_prefix
common_prefix-Starts p w words (s, a) = common_with-Starts p w words s a

-- Text is inserted behind what stands before the cursor, and the cursor is behind it.
pub record Inserts (before after : Text) (out : Text × ℕ) : Type 0 where
  pub more : Text
  pub line_right : out.0 ≡ before ++ (more ++ after)
  pub cursor_right : out.1 ≡ length before + length more

completed_line-Inserts :
    (before after completed : Text)
    → Starts before completed
    → Inserts before after (completed_line completed after)
unfolding completed_line
completed_line-Inserts before after completed (more, e) = record {
  more = more;
  line_right = ap (λ s. s ++ after) e ∙ append_assoc before more after;
  cursor_right = ap length e ∙ length-append before more;
}

inserted_nothing : (before after : Text) → Inserts before after (completed_line before after)
inserted_nothing before after =
    completed_line-Inserts before after before ([], sym (append-nil before))

spaced-Starts :
    (test : Bool) (before completed space : Text)
    → Starts before completed
    → Starts before (if test then completed ++ space else completed)
spaced-Starts true before completed space (more, e) =
    (more ++ space, ap (λ s. s ++ space) e ∙ append_assoc before more space)
spaced-Starts false before completed space s = s

with_space-Starts :
    (before completed after : Text)
    → Starts before completed
    → Starts before (with_space completed after)
with_space-Starts before completed after s = spaced-Starts _ before completed (codes " ") s

name_from-Inserts :
    (before after : Text) (words : List Text)
    → AllStart before words
    → Inserts before after (name_from before after words)
unfolding name_from
name_from-Inserts before after [] a = inserted_nothing before after
name_from-Inserts before after (w ∷ words) a =
    completed_line-Inserts before after (with_space (common_prefix (w ∷ words)) after) (
      with_space-Starts before (common_prefix (w ∷ words)) after
        (common_prefix-Starts before w words a))

complete_from-Inserts :
    (leading prefix after : Text) (words : List Text)
    → AllStart prefix words
    → Inserts (leading ++ prefix) after (complete_from leading prefix after words)
unfolding complete_from
complete_from-Inserts leading prefix after [] a = inserted_nothing (leading ++ prefix) after
complete_from-Inserts leading prefix after (w ∷ words) a =
    let (more, e) = common_prefix-Starts prefix w words a in
    completed_line-Inserts (leading ++ prefix) after (leading ++ common_prefix (w ∷ words))
      (more, ap (λ s. leading ++ s) e ∙ sym (append_assoc leading prefix more))

abbrev Rejoins : Text → Option (Text × Text) → Type 0
Rejoins s none = Unit {0}
Rejoins s (some (leading, word)) = leading ++ word ≡ s

split_space-Rejoins : (s : Text) → Rejoins s (split_space s)
unfolding split_space
split_space-Rejoins [] = tt
split_space-Rejoins (c ∷ s) = elim (Option-cases (split_space s)) [
  | inl without ↦ elim (Bool-cases (is_space c)) [
    | inr word ↦ simp (without, word) tt
    | inl space ↦ elim (Bool-cases (ltb c 128)) [
      | inl one_byte ↦ simp (without, space, one_byte) refl
      | inr more_bytes ↦ simp (without, space, more_bytes) refl
    ]
  ]
  | inr (parts, found) ↦
      let rest = subst (Rejoins s) found (split_space-Rejoins s) in
      simp found (ap (λ w. c ∷ w) rest)
]

parts_of_lem :
    (s : Text) (o : Option (Text × Text)) → Rejoins s o → (parts_of s o).0 ++ (parts_of s o).1 ≡ s
parts_of_lem s none h = refl
parts_of_lem s (some parts) h = h

split_last_lem : (s : Text) → (split_last s).0 ++ (split_last s).1 ≡ s
unfolding split_last
split_last_lem s = parts_of_lem s (split_space s) (split_space-Rejoins s)

subcommand_from-Inserts :
    (o : Option CommandSpec) (before after : Text)
    → Inserts before after (subcommand_from o before after (split_last before))
unfolding complete_word
subcommand_from-Inserts none before after = inserted_nothing before after
subcommand_from-Inserts (some spec) before after =
    let (leading, word) = split_last before in
    let whole = split_last_lem before in
    let done =
      complete_from-Inserts leading word after (with_prefix word spec.subcommands)
        (with_prefix-AllStart word spec.subcommands) in
    let nothing = inserted_nothing before after in
    elim (Bool-cases (is_empty word)) [
      | inl e ↦ simp e nothing
      | inr e ↦ simp e (
          subst
            (λ s.
              Inserts s after
                (complete_from leading word after (with_prefix word spec.subcommands)))
            whole done)
    ]

complete_parts-Inserts : (before after : Text) → Inserts before after (complete_parts before after)
unfolding complete_parts complete_command_name
complete_parts-Inserts before after =
    let nothing = inserted_nothing before after in
    elim (Bool-cases (has_prefix before (codes "/"))) [
      | inr e ↦ simp e nothing
      | inl e ↦ elim (Option-cases (first_word before)) [
        | inl one ↦
            let named =
              name_from-Inserts before after (with_prefix before (names command_specs))
                (with_prefix-AllStart before (names command_specs)) in
            simp (e, one) named
        | inr (word, two) ↦
            let sub = subcommand_from-Inserts (known (find_command_spec word)) before after in
            simp (e, two) sub
      ]
    ]

-- With the cursor in a line of the console, or at its end, the completion keeps all that was typed:
-- it inserts text at the cursor, possibly none, and moves the cursor behind it.
pub complete_command_line-Inserts :
    (line : Text) (n : ℕ)
    → n ≤ length line
    → (more : Text) × ((complete_command_line line (pos n)).0
        ≡ take line n ++ (more ++ drop line n))
      × ((complete_command_line line (pos n)).1 ≡ pos (n + length more))
unfolding complete_command_line
complete_command_line-Inserts line n h =
    let out = complete_parts-Inserts (take line n) (drop line n) in
    let there = length-take line n h in
    let inside : (ltb_ℤ (pos n) (pos 0) || ltb_ℤ (pos (length line)) (pos n)) ≡ false =
      ground arith in
    simp inside
      (out.more, out.line_right, ap pos (out.cursor_right ∙ ap (λ k. k + length out.more) there))

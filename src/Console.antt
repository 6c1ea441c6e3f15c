-- ===== src/Console.antt =====
-- internal/console: the commands, and how a line is completed. Texts are lists of code points, and so
-- positions count code points, where Go counts the bytes before one.
pub mod Completion
pub mod Session
use webot_msg.Common.{
  ℕ, zero, suc, ◌+◌, ◌-◌, Bool, true, false, ◌&&◌, ◌||◌, not, Option, none, some, List, [], ◌∷◌,
  ◌++◌, length, take, drop, if◌then◌else◌, Text, codes, text_eq, is_empty, ltb,
}
use webot_msg.Common.Int.{ℤ, pos, ltb_ℤ, pos_part}
use webot_msg.Common.Strings.{has_prefix, is_space}

pub record CommandSpec : Type 0 where
  pub name : Text
  pub usage : Text
  pub subcommands : List Text

abbrev plain : Text → Text → CommandSpec
plain name usage = record { name = name; usage = usage; subcommands = [] }

abbrev switches : List Text
switches = codes "enable" ∷ codes "disable" ∷ codes "status" ∷ []

unfoldable pub command_specs : List CommandSpec
command_specs =
    plain (codes "/login") (codes "/login       - Scan QR code to add a new user/bot.")
    ∷ plain (codes "/bots") (codes "/bots        - List all logged-in bots and select active one.")
    ∷ plain (codes "/bot") (codes "/bot <num>   - Select bot by list index.")
    ∷ plain (codes "/del") (codes "/del <num>   - Delete bot by list index.")
    ∷ record {
      name = codes "/protection";
      usage = codes "/protection enable|disable|status - Control send protection.";
      subcommands = switches;
    }
    ∷ record {
      name = codes "/audit";
      usage = codes "/audit enable|disable|status - Control message audit.";
      subcommands = switches;
    }
    ∷ plain (codes "/exit") (codes "/exit        - Exit this console session.")
    ∷ plain (codes "/quit") (codes "/quit        - Exit this console session.")
    ∷ []

unfoldable pub find_in : Text → List CommandSpec → Option CommandSpec
find_in name [] = none
find_in name (spec ∷ specs) =
    let rest = find_in name specs in if text_eq spec.name name then some spec else rest

unfoldable pub find_command_spec : Text → Option CommandSpec
find_command_spec name = find_in name command_specs

abbrev join_onto : Text → Text → List Text → Text
join_onto result sep [] = result
join_onto result sep (word ∷ words) = join_onto (result ++ (sep ++ word)) sep words

unfoldable pub join_words : List Text → Text → Text
join_words [] sep = []
join_words (word ∷ words) sep = join_onto word sep words

abbrev usage_of : Text → Option CommandSpec → Text
usage_of default none = default
usage_of default (some spec) =
    codes "Usage: " ++ (spec.name ++ (codes " " ++ join_words spec.subcommands (codes "|")))

unfoldable pub protection_usage : Text
protection_usage =
    usage_of (codes "Usage: /protection enable|disable|status")
      (find_command_spec (codes "/protection"))

unfoldable pub audit_usage : Text
audit_usage =
    usage_of (codes "Usage: /audit enable|disable|status") (find_command_spec (codes "/audit"))

unfoldable pub with_prefix : Text → List Text → List Text
with_prefix prefix [] = []
with_prefix prefix (word ∷ words) =
    let rest = with_prefix prefix words in if has_prefix word prefix then word ∷ rest else rest

-- The inner loop of `commonPrefix` takes code points off the end until the value has what is left as
-- a prefix, which is the longest common prefix of the two.
unfoldable pub shrink : ℕ → Text → Text → Text
shrink zero prefix value = []
shrink (suc rounds) prefix value =
    let rest = shrink rounds (take prefix (length prefix - 1)) value in
    if has_prefix value prefix then prefix else rest

unfoldable pub common_with : Text → List Text → Text
common_with prefix [] = prefix
common_with prefix (value ∷ values) = common_with (shrink (length prefix) prefix value) values

unfoldable pub common_prefix : List Text → Text
common_prefix [] = []
common_prefix (value ∷ values) = common_with value values

unfoldable pub starts_with_space : Text → Bool
starts_with_space [] = false
starts_with_space (c ∷ s) = is_space c

abbrev pub has_subcommands : Option CommandSpec → Bool
has_subcommands none = false
has_subcommands (some spec) = elim spec.subcommands [ [] ↦ false | word ∷ words ↦ true ]

-- The new line and the new position; the third result of the Go functions is always true.
unfoldable pub completed_line : Text → Text → Text × ℕ
completed_line completed after = (completed ++ after, length completed)

unfoldable pub complete_from : Text → Text → Text → List Text → Text × ℕ
complete_from leading prefix after [] = completed_line (leading ++ prefix) after
complete_from leading prefix after (word ∷ words) =
    completed_line (leading ++ common_prefix (word ∷ words)) after

unfoldable pub complete_word : Text → Text → Text → List Text → Text × ℕ
complete_word leading prefix after words =
    complete_from leading prefix after (with_prefix prefix words)

abbrev pub names : List CommandSpec → List Text
names [] = []
names (spec ∷ specs) = spec.name ∷ names specs

abbrev pub with_space : Text → Text → Text
with_space completed after =
    if has_subcommands (find_command_spec completed) && not (starts_with_space after)
    then completed ++ codes " "
    else completed

unfoldable pub name_from : Text → Text → List Text → Text × ℕ
name_from prefix after [] = completed_line prefix after
name_from prefix after (word ∷ words) =
    completed_line (with_space (common_prefix (word ∷ words)) after) after

unfoldable pub complete_command_name : Text → Text → Text × ℕ
complete_command_name prefix after =
    name_from prefix after (with_prefix prefix (names command_specs))

-- `before[:commandEnd]`, if there is a space.
unfoldable pub first_word : Text → Option Text
first_word [] = none
first_word (c ∷ s) =
    let rest = first_word s in
    if is_space c then some [] else elim rest [ none ↦ none | some word ↦ some (c ∷ word) ]

-- `before[:lastSpace+1]` and `before[lastSpace+1:]`, if there is a space. The cut falls behind the
-- first byte of the last space: what is left of a space of several bytes (from code 128 on) opens
-- the word, so that no subcommand starts with it; here such a space stays whole and is in the word.
unfoldable pub split_space : Text → Option (Text × Text)
split_space [] = none
split_space (c ∷ s) = elim (split_space s) [
  | some (leading, word) ↦ some (c ∷ leading, word)
  | none ↦
      if not (is_space c) then none else if ltb c 128 then some (c ∷ [], s) else some ([], c ∷ s)
]

abbrev pub parts_of : Text → Option (Text × Text) → Text × Text
parts_of s none = ([], s)
parts_of s (some parts) = parts

unfoldable pub split_last : Text → Text × Text
split_last s = parts_of s (split_space s)

abbrev pub subcommand_from : Option CommandSpec → Text → Text → Text × Text → Text × ℕ
subcommand_from none before after parts = completed_line before after
subcommand_from (some spec) before after (leading, word) =
    if is_empty word
    then completed_line before after
    else complete_word leading word after spec.subcommands

abbrev pub known : Option CommandSpec → Option CommandSpec
known o = if has_subcommands o then o else none

unfoldable pub complete_parts : Text → Text → Text × ℕ
complete_parts before after =
    let name = complete_command_name before after in
    let word = first_word before in
    if not (has_prefix before (codes "/")) then completed_line before after else elim word [
      | none ↦ name
      | some w ↦ subcommand_from (known (find_command_spec w)) before after (split_last before)
    ]

unfoldable pub complete_command_line : Text → ℤ → Text × ℤ
complete_command_line line at =
    let (new_line, new_pos) = complete_parts (take line (pos_part at)) (drop line (pos_part at)) in
    if ltb_ℤ at (pos 0) || ltb_ℤ (pos (length line)) at then (line, at) else (new_line, pos new_pos)

-- ===== src/Console/Session.antt =====
-- internal/console/console.go: a session of the console, over the lines that come in. Whoever reads
-- the lines prompts for them, and says when they end and when the user interrupts them.
pub mod Messages
use webot_msg.Common.{
  ℕ, Bool, true, false, ◌||◌, ◌&&◌, Option, none, some, List, [], ◌∷◌, ◌++◌, if◌then◌else◌, Text,
  codes, text_eq, is_empty, Error, Result, ok, err,
}
use webot_msg.Common.Int.{ℤ}
use webot_msg.Common.Strings.{has_prefix, trim_space, fields_of}
use webot_msg.Strconv.{atoi}
use webot_msg.Protection.Guard.{error_text}
use webot_msg.Console.{CommandSpec, command_specs, protection_usage, audit_usage}

pub data ExitReason : Type 0 where
  exit_input_closed exit_command exit_interrupt : ExitReason

pub data Input : Type 0 where
  line : Text → Input
  input_closed interrupted : Input

-- The console's `Controller`, with what prints a text, and the text of errors from outside.
pub record Controller (W : Type 0) : Type 0 where
  pub default_bot_id : W → Text
  pub login : W → Result Text × W
  pub print_bots : Text → W → W
  pub select_bot : ℤ → W → Option Text × W
  pub delete_bot : ℤ → W → Option Text × W
  pub enable_protection : W → Option Error × W
  pub disable_protection : W → Option Error × W
  pub print_protection_status : Text → W → W
  pub enable_audit : W → Option Error × W
  pub disable_audit : W → Option Error × W
  pub print_audit_status : W → W
  pub send_text : Text → Text → W → Option Error × W
  pub print : Text → W → W
  pub outside : ℕ → Text

-- The session asks for a command, or for the number of a bot.
pub data Asking : Type 0 where
  for_command for_number : Asking

-- What a line comes to: the session goes on with an active bot, or ends.
pub data Turn : Type 0 where
  goes_on : Asking → Text → Turn
  leaves : ExitReason → Turn

module _ {W : Type 0} (c : Controller W) where
  open c use {print, outside}

  abbrev pub print_line : Text → W → W
  print_line text = print (text ++ codes "\n")

  abbrev pub report : Text → Option Error × W → W
  report text (none, w) = w
  report text (some e, w) = print_line (text ++ error_text outside e) w

  abbrev pub after_login : Text → Result Text × W → Turn × W
  after_login active (err e, w) =
      (goes_on for_command active, print_line (codes "QR login failed: " ++ error_text outside e) w)
  after_login active (ok bot, w) =
      (goes_on for_command bot, print_line (codes "Active bot changed to: " ++ bot) w)

  abbrev pub after_select : Text → Option Text × W → Turn × W
  after_select active (none, w) = (goes_on for_command active, w)
  after_select active (some bot, w) = (goes_on for_command bot, w)

  abbrev pub after_delete : Text → Option Text × W → Turn × W
  after_delete active (none, w) = (goes_on for_command active, w)
  after_delete active (some bot, w) =
      (goes_on for_command (if text_eq bot active then [] else active), w)

  -- A number that cannot be read is passed over.
  abbrev pub select_number : Option ℤ → Text → W → Turn × W
  select_number none active w = (goes_on for_command active, w)
  select_number (some idx) active w = after_select active (c.select_bot idx w)

  abbrev pub delete_number : Option ℤ → Text → W → Turn × W
  delete_number none active w = (goes_on for_command active, w)
  delete_number (some idx) active w = after_delete active (c.delete_bot idx w)

  abbrev pub second_field : List Text → Option ℤ
  second_field (name ∷ (number ∷ more)) = atoi number
  second_field _ = none

  abbrev pub audit_switch : Text → W → W
  audit_switch word w =
      if text_eq word (codes "enable")
      then report (codes "Enable audit failed: ") (c.enable_audit w)
      else if text_eq word (codes "disable")
      then report (codes "Disable audit failed: ") (c.disable_audit w)
      else if text_eq word (codes "status")
      then c.print_audit_status w
      else print_line audit_usage w

  abbrev pub audit_fields : List Text → W → W
  audit_fields (name ∷ (word ∷ [])) w = audit_switch word w
  audit_fields _ w = print_line audit_usage w

  unfoldable pub handle_audit_command : Text → W → W
  handle_audit_command text w = audit_fields (fields_of text) w

  abbrev pub protection_switch : Text → Text → W → W
  protection_switch word active w =
      if text_eq word (codes "enable")
      then report (codes "Enable protection failed: ") (c.enable_protection w)
      else if text_eq word (codes "disable")
      then report (codes "Disable protection failed: ") (c.disable_protection w)
      else if text_eq word (codes "status")
      then c.print_protection_status active w
      else print_line protection_usage w

  abbrev pub protection_fields : List Text → Text → W → W
  protection_fields (name ∷ (word ∷ [])) active w = protection_switch word active w
  protection_fields _ active w = print_line protection_usage w

  unfoldable pub handle_protection_command : Text → Text → W → W
  handle_protection_command text active w = protection_fields (fields_of text) active w

  abbrev pub after_send : Option Error × W → W
  after_send (none, w) = print_line (codes "Send success!") w
  after_send (some e, w) = print_line (error_text outside e) w

  abbrev pub warn_unknown : Text → W → W
  warn_unknown text w =
      if has_prefix text (codes "/")
      then print_line (codes "Command not recognized, treating as text msg...") w
      else w

  unfoldable pub send_line : Text → Text → W → Turn × W
  send_line text active w =
      (goes_on for_command active, after_send (c.send_text active text (warn_unknown text w)))

  -- A line that was trimmed and is not empty.
  unfoldable pub handle_command : Text → Text → W → Turn × W
  handle_command text active w =
      if text_eq text (codes "/exit") || text_eq text (codes "/quit")
      then (leaves exit_command, w)
      else if text_eq text (codes "/login")
      then after_login active (c.login w)
      else if text_eq text (codes "/bots")
      then (goes_on for_number active, c.print_bots active w)
      else if has_prefix text (codes "/bot ")
      then select_number (second_field (fields_of text)) active w
      else if has_prefix text (codes "/del ")
      then delete_number (second_field (fields_of text)) active w
      else if text_eq text (codes "/protection") || has_prefix text (codes "/protection ")
      then (goes_on for_command active, handle_protection_command text active w)
      else if text_eq text (codes "/audit") || has_prefix text (codes "/audit ")
      then (goes_on for_command active, handle_audit_command text w)
      else send_line text active w

  unfoldable pub handle_line : Asking → Text → Text → W → Turn × W
  handle_line for_command text active w =
      if is_empty (trim_space text)
      then (goes_on for_command active, w)
      else handle_command (trim_space text) active w
  handle_line for_number text active w =
      if is_empty (trim_space text)
      then (goes_on for_command active, w)
      else select_number (atoi (trim_space text)) active w

  abbrev pub asking_of : Turn → Asking
  asking_of (goes_on asking active) = asking
  asking_of (leaves reason) = for_command

  abbrev pub active_of : Turn → Text
  active_of (goes_on asking active) = active
  active_of (leaves reason) = []

  abbrev pub unless_left : Turn → W → ExitReason × W → ExitReason × W
  unless_left (leaves reason) w rest = (reason, w)
  unless_left (goes_on asking active) w rest = rest

  unfoldable pub read_lines : Asking → Text → List Input → W → ExitReason × W
  read_lines asking active [] w = (exit_input_closed, w)
  read_lines asking active (input_closed ∷ inputs) w = (exit_input_closed, w)
  read_lines asking active (interrupted ∷ inputs) w = (exit_interrupt, w)
  read_lines asking active (line text ∷ inputs) w =
      let (turn, w') = handle_line asking text active w in
      let rest = read_lines (asking_of turn) (active_of turn) inputs w' in unless_left turn w' rest

  abbrev pub print_usages : List CommandSpec → W → W
  print_usages [] w = w
  print_usages (spec ∷ specs) w = print_usages specs (print_line (codes "  " ++ spec.usage) w)

  unfoldable pub run_with_line_reader : List Input → W → ExitReason × W
  run_with_line_reader inputs w = read_lines for_command (c.default_bot_id w) inputs (
      print_line (codes "  [Text]       - Send message using active user to themselves.")
        (print_usages command_specs (print_line (codes "\nConsole commands:") w)))

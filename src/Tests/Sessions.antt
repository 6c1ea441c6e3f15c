-- ===== src/Tests/Sessions.antt =====
-- A session of the console over a list of what was sent.
use webot_msg.Common.{
  ◌≡◌, refl, some, none, Option, List, [], ◌∷◌, ◌++◌, Text, codes, text_eq, is_empty, err, failed,
  Error,
}
use webot_msg.Common.Strings.{is_space, trim_left, trim_right, trim_space, has_prefix}
use webot_msg.Console.Session.{Controller, exit_input_closed, line, for_command, read_lines}
use webot_msg.Console.Session.Messages.{
  is_command, sending, lines, send_all, read_lines-commands, read_lines-messages,
}

abbrev Sent : Type 0
Sent = List (Text × Text)

abbrev controller : Controller Sent
controller = record {
  default_bot_id = λ w. codes "b1";
  login = λ w. (err (failed (codes "timeout")), w);
  print_bots = λ active w. w;
  select_bot = λ idx w. (none, w);
  delete_bot = λ idx w. (some (codes "b1"), w);
  enable_protection = λ w. (none, w);
  disable_protection = λ w. (none, w);
  print_protection_status = λ active w. w;
  enable_audit = λ w. (none, w);
  disable_audit = λ w. (none, w);
  print_audit_status = λ w. w;
  send_text = λ bot text w. (none, w ++ (bot, text) ∷ []);
  print = λ text w. w;
  outside = λ n. [];
}

abbrev drop_message : Text → Text → Sent → Option Error × Sent
drop_message bot text w = (none, w)

read_lines-commands_example :
    read_lines controller for_command
      (codes "b1")
      (line (codes "/del 1") ∷ (line (codes " /audit status") ∷ []))
      []
    ≡ read_lines
        (sending controller drop_message)
        for_command
        (codes "b1")
        (line (codes "/del 1") ∷ (line (codes " /audit status") ∷ []))
        []
unfolding is_command is_space trim_left trim_right trim_space has_prefix text_eq
read_lines-commands_example =
    read_lines-commands controller drop_message for_command (codes "b1")
      (line (codes "/del 1") ∷ (line (codes " /audit status") ∷ [])) [] (refl, (refl, tt))

read_lines-messages_example :
    read_lines controller for_command
      (codes "b1")
      (lines controller (codes "hi " ∷ codes "/what" ∷ []))
      []
    ≡ (exit_input_closed, send_all controller (codes "b1") (codes "hi " ∷ codes "/what" ∷ []) [])
unfolding is_command is_space trim_left trim_right trim_space has_prefix text_eq is_empty
read_lines-messages_example =
    read_lines-messages controller (codes "b1") (codes "hi " ∷ codes "/what" ∷ []) []
      (refl, refl, (refl, refl, tt))

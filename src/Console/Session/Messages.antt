-- ===== src/Console/Session/Messages.antt =====
-- Which lines are sent.
use webot_msg.Common.{
  ◌≡◌, refl, ap, ◌∙◌, Bool, true, false, ◌||◌, Option, List, [], ◌∷◌, Text, codes, text_eq,
  is_empty, Error, Bool-cases, inl, inr, arith,
}
use webot_msg.Common.Strings.{has_prefix, trim_space}
use webot_msg.Console.Session.{
  exit_input_closed, after_send, warn_unknown, Input, line, input_closed, interrupted, Controller,
  Asking, for_command, for_number, handle_audit_command, handle_protection_command, send_line,
  handle_command, handle_line, read_lines, asking_of, active_of, unless_left,
}

-- The commands, as their usages list them.
unfoldable pub is_command : Text → Bool
is_command text =
    text_eq text (codes "/exit")
    || text_eq text (codes "/quit")
    || text_eq text (codes "/login")
    || text_eq text (codes "/bots")
    || has_prefix text (codes "/bot ")
    || has_prefix text (codes "/del ")
    || text_eq text (codes "/protection")
    || has_prefix text (codes "/protection ")
    || text_eq text (codes "/audit")
    || has_prefix text (codes "/audit ")

module _ {W : Type 0} (c : Controller W) where
  -- The same console, except for what becomes of messages.
  abbrev pub sending : (Text → Text → W → Option Error × W) → Controller W
  sending send = record c { send_text = send }

  handle_command-command :
      (send : Text → Text → W → Option Error × W) (text active : Text) (w : W)
      → is_command text ≡ true
      → handle_command c text active w ≡ handle_command (sending send) text active w
  unfolding handle_command handle_audit_command handle_protection_command is_command
  handle_command-command send text active w h =
      elim (Bool-cases (text_eq text (codes "/exit") || text_eq text (codes "/quit"))) [
        | inl e ↦ simp (e)
        | inr no_exit ↦ elim (Bool-cases (text_eq text (codes "/login"))) [
          | inl e ↦ simp (no_exit, e)
          | inr no_login ↦ elim (Bool-cases (text_eq text (codes "/bots"))) [
            | inl e ↦ simp (no_exit, no_login, e)
            | inr no_bots ↦ elim (Bool-cases (has_prefix text (codes "/bot "))) [
              | inl e ↦ simp (no_exit, no_login, no_bots, e)
              | inr no_select ↦ elim (Bool-cases (has_prefix text (codes "/del "))) [
                | inl e ↦ simp (no_exit, no_login, no_bots, no_select, e)
                | inr no_del ↦
                    elim (Bool-cases (
                      text_eq text (codes "/protection")
                      || has_prefix text (codes "/protection "))) [
                        | inl e ↦ simp (no_exit, no_login, no_bots, no_select, no_del, e)
                        | inr no_protection ↦
                            elim (Bool-cases (
                              text_eq text (codes "/audit") || has_prefix text (codes "/audit "))) [
                                | inl e ↦ simp (
                                  no_exit, no_login, no_bots, no_select, no_del, no_protection, e,
                                )
                                | inr no_audit ↦ ground arith
                              ]
                      ]
              ]
            ]
          ]
        ]
      ]

  handle_line-command :
      (send : Text → Text → W → Option Error × W) (asking : Asking) (text active : Text) (w : W)
      → is_command (trim_space text) ≡ true
      → handle_line c asking text active w ≡ handle_line (sending send) asking text active w
  unfolding handle_line
  handle_line-command send for_number text active w h = refl
  handle_line-command send for_command text active w h =
      let same = handle_command-command send (trim_space text) active w h in
      elim (Bool-cases (is_empty (trim_space text))) [ inl e ↦ simp e | inr e ↦ simp e same ]

  abbrev pub AllCommands : List Input → Type 0
  AllCommands [] = Unit {0}
  AllCommands (line text ∷ inputs) = (is_command (trim_space text) ≡ true) × AllCommands inputs
  AllCommands (_ ∷ inputs) = AllCommands inputs

  -- A session whose lines are all commands, or answers that look like them, never sends a message:
  -- it does the same, whatever sending a message would do.
  pub read_lines-commands :
      (send : Text → Text → W → Option Error × W) (asking : Asking) (active : Text)
      (inputs : List Input) (w : W)
      → AllCommands inputs
      → read_lines c asking active inputs w ≡ read_lines (sending send) asking active inputs w
  unfolding read_lines
  read_lines-commands send asking active [] w a = refl
  read_lines-commands send asking active (input_closed ∷ inputs) w a = refl
  read_lines-commands send asking active (interrupted ∷ inputs) w a = refl
  read_lines-commands send asking active (line text ∷ inputs) w (h, a) =
      let same = handle_line-command send asking text active w h in
      let out = handle_line c asking text active w in
      let rest = read_lines-commands send (asking_of c out.0) (active_of c out.0) inputs out.1 a in
      ap (λ x. unless_left c out.0 out.1 x) rest
      ∙ ap
          (λ o.
            unless_left c o.0 o.1
              (read_lines (sending send) (asking_of c o.0) (active_of c o.0) inputs o.1))
          same

  handle_line-sends :
      (text active : Text) (w : W)
      → is_empty (trim_space text) ≡ false
      → is_command (trim_space text) ≡ false
      → handle_line c for_command text active w ≡ send_line c (trim_space text) active w
  unfolding handle_line handle_command is_command
  handle_line-sends text active w e n =
      let trimmed = trim_space text in
      let no_exit : (text_eq trimmed (codes "/exit") || text_eq trimmed (codes "/quit")) ≡ false =
        ground arith in
      let no_login : text_eq trimmed (codes "/login") ≡ false = ground arith in
      let no_bots : text_eq trimmed (codes "/bots") ≡ false = ground arith in
      let no_select : has_prefix trimmed (codes "/bot ") ≡ false = ground arith in
      let no_del : has_prefix trimmed (codes "/del ") ≡ false = ground arith in
      let no_protection : (text_eq trimmed (codes "/protection")
            || has_prefix trimmed (codes "/protection "))
          ≡ false =
        ground arith in
      let no_audit : (text_eq trimmed (codes "/audit") || has_prefix trimmed (codes "/audit "))
          ≡ false =
        ground arith in
      simp (e, no_exit, no_login, no_bots, no_select, no_del, no_protection, no_audit)

  abbrev pub AllMessages : List Text → Type 0
  AllMessages [] = Unit {0}
  AllMessages (text ∷ texts) =
      (is_empty (trim_space text) ≡ false)
      × (is_command (trim_space text) ≡ false)
      × AllMessages texts

  abbrev pub lines : List Text → List Input
  lines [] = []
  lines (text ∷ texts) = line text ∷ lines texts

  -- Each message is sent, and the answer to it printed, before the next.
  abbrev pub send_all : Text → List Text → W → W
  send_all active [] w = w
  send_all active (text ∷ texts) w =
      let message = trim_space text in
      send_all active texts (after_send c (c.send_text active message (warn_unknown c message w)))

  -- A session of lines that are neither empty nor commands sends them all, in their order, each once,
  -- without the spaces round it, with the bot that is active at the start, and ends with its input.
  pub read_lines-messages :
      (active : Text) (texts : List Text) (w : W)
      → AllMessages texts
      → read_lines c for_command active (lines texts) w
        ≡ (exit_input_closed, send_all active texts w)
  unfolding read_lines send_line
  read_lines-messages active [] w a = refl
  read_lines-messages active (text ∷ texts) w (e, n, a) =
      let message = trim_space text in
      let w' = after_send c (c.send_text active message (warn_unknown c message w)) in
      let sent = handle_line-sends text active w e n in
      let rest = read_lines-messages active texts w' a in simp (sent, rest)

-- ===== src/App/Updates.antt =====
-- internal/app/app.go: what an answer to a poll does to the bot, and the poll of the time window.
pub mod Activity
pub mod Unlocking
use webot_msg.Common.{
  Bool, true, false, ◌||◌, ◌&&◌, not, Option, none, some, List, [], ◌∷◌, if◌then◌else◌, Text,
  text_eq, is_empty, Error, Result, ok, err,
}
use webot_msg.Common.Int.{ℤ}
use webot_msg.Config.{UserConfig}
use webot_msg.Config.Store.{Store, get_bot, update_bot}
use webot_msg.Protection.Guard.{Guard, Decision, allow, reject, send_reminder_and_freeze}
use webot_msg.Sender.ProtectedText.{Services, send_protection_reminder}

-- internal/ilink/client.go: what the update of a bot reads of an answer.
pub record WeixinMessage : Type 0 where
  pub from_user_id : Text
  pub context_token : Text

pub record UpdatesResponse : Type 0 where
  pub get_updates_buf : Text
  pub msgs : List WeixinMessage

unfoldable pub opens_conversation : WeixinMessage → Bool
opens_conversation msg = not (is_empty msg.from_user_id || is_empty msg.context_token)

unfoldable pub any_opens : List WeixinMessage → Bool
any_opens [] = false
any_opens (msg ∷ msgs) = opens_conversation msg || any_opens msgs

-- A user with whether it was changed.
abbrev pub set_buf : Text → Bool × UserConfig → Bool × UserConfig
set_buf buf (changed, user) =
    if not (is_empty buf) && not (text_eq user.get_updates_buf buf)
    then (true, record user { get_updates_buf = buf })
    else (changed, user)

abbrev pub set_user_id : Text → Bool × UserConfig → Bool × UserConfig
set_user_id id (changed, user) =
    if text_eq user.ilink_user_id id
    then (changed, user)
    else (true, record user { ilink_user_id = id })

abbrev pub set_token : Text → Bool × UserConfig → Bool × UserConfig
set_token token (changed, user) =
    if text_eq user.context_token token
    then (changed, user)
    else (true, record user { context_token = token })

unfoldable pub note_message : WeixinMessage → Bool × UserConfig → Bool × UserConfig
note_message msg noted =
    if opens_conversation msg
    then set_token msg.context_token (set_user_id msg.from_user_id noted)
    else noted

unfoldable pub note_messages : List WeixinMessage → Bool × UserConfig → Bool × UserConfig
note_messages [] noted = noted
note_messages (msg ∷ msgs) noted = note_messages msgs (note_message msg noted)

-- The callback of `UpdateBot`.
unfoldable pub note_updates : UpdatesResponse → UserConfig → Bool × UserConfig
note_updates res user = note_messages res.msgs (set_buf res.get_updates_buf (false, user))

abbrev is_there : Option UserConfig → Bool
is_there none = false
is_there (some user) = true

module _ {W : Type 0} (guard : Guard W) (start_send_queue_drainer : Text → W → W) where
  -- Only a bot whose conversation is recorded gets its queue drained.
  unfoldable pub recorded : Text → Result (Unit {0}) × W → W
  recorded bot (ok done, w) = start_send_queue_drainer bot w
  recorded bot (err e, w) = w

  -- The callback does not run for a bot that is gone. An error of the save is logged.
  unfoldable pub persist_update_state : Text → UpdatesResponse → Store → W → Store × W
  persist_update_state bot res s w =
      let (outcome, s') = update_bot bot (note_updates res) s in
      if is_there (get_bot bot s) && any_opens res.msgs
      then (s', recorded bot (guard.record_active_conversation bot w))
      else (s', w)

module _ {W : Type 0} (v : Services W) (reminder_text : Text) where
  unfoldable pub after_check : UserConfig → Result Decision × W → W
  after_check user (ok (send_reminder_and_freeze reason), w) =
      (send_protection_reminder v user reminder_text w).1
  after_check user (_, w) = w

  -- `checkProtectionTimeWindowOnce`: whether to check again.
  unfoldable pub check_protection_time_window_once : Text → Option UserConfig → W → Bool × W
  check_protection_time_window_once bot none w = (false, w)
  check_protection_time_window_once bot (some user) w =
      (true, after_check user (v.guard.check_time_window bot w))

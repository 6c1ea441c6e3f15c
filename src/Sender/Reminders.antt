-- ===== src/Sender/Reminders.antt =====
-- The last message before the lock, with its reminder, and the refusal of what comes after.
use webot_msg.Common.{
  ℕ, suc, ◌≤◌, ◌<◌, ◌≡◌, refl, ap, ◌∙◌, inr, ◌||◌, Bool, true, false, none, [], ◌∷◌, ◌++◌, tail,
  arith, Text, is_empty, ok,
}
use webot_msg.Common.Int.{ℤ, FitsInt64}
use webot_msg.Config.{UserConfig}
use webot_msg.Redis.{Redis, max_exact}
use webot_msg.Protection.Policy
use webot_msg.Protection.Policy.{
  BotState, unlocked, locked, sends, sends_then_reminds, rejects, reminded, Ruling,
}
use webot_msg.Protection.Policy.Budget.{reserve-count}
use webot_msg.Protection.Scripts.{reason_count}
use webot_msg.Protection.Guard.{send_normal_then_reminder}
use webot_msg.Protection.RedisGuard.{RedisGuardConfig, PayloadCodec, limits, reserve_normal_send}
use webot_msg.Protection.RedisGuard.Answers.{reservation_for, reserve_normal_send-fates}
use webot_msg.Protection.RedisGuard.Correct.{Holds, reserve_normal_send_correct}
use webot_msg.Protection.RedisGuard.Conversation.{record_reminder_send_correct}
use webot_msg.Sender.ProtectedText.{
  send_protected_text, send_protection_reminder, then_remind, audit_sent, with_id, with_footer,
}
use webot_msg.Sender.World.{World, Message, send-arrives, services}
use webot_msg.Sender.Delivery.{send_with_reservation-sends, kind_of_Sends, send_reserved-reminds}
use webot_msg.Protection.Replies.{with_status}

-- The reminder is not sent: it has no text, or the bot has nobody to answer.
abbrev pub cannot_remind : UserConfig → Text → Bool
cannot_remind user reminder_text =
    is_empty reminder_text || is_empty user.ilink_user_id || is_empty user.context_token

module _ (r : Redis) (codec : PayloadCodec) (g : RedisGuardConfig) (user : UserConfig) where
  abbrev pub out_message : Text → Message
  out_message text = record {
    recipient = user.ilink_user_id;
    text = text;
    token = user.context_token;
  }

  -- A reminder that arrives is recorded: it is out, and the bot is locked with no reminder due.
  pub send_protection_reminder-arrives :
      (reminder_text : Text) (w : World r) (b : BotState)
      → cannot_remind user reminder_text ≡ false
      → w.server.fates ≡ []
      → w.wire ≡ []
      → Holds r g user.bot_id w.server b
      → suc b.count ≤ max_exact
      → let out = send_protection_reminder (services r codec g) user reminder_text w in
        (out.0 ≡ (true, none))
        × (out.1.outbox ≡ w.outbox ++ out_message reminder_text ∷ [])
        × (out.1.audits ≡ w.audits)
        × Holds r g user.bot_id out.1.server (reminded b)
  unfolding send_protection_reminder
  send_protection_reminder-arrives reminder_text w b can live clear h small =
      let a = record_reminder_send_correct r g user.bot_id w.server b (rw live) h small in
      rw (can, send-arrives r user user.ilink_user_id reminder_text user.context_token w clear, a.0)
        (refl, refl, refl, a.1)

  -- The message that goes out: the text, its footer and its id.
  abbrev pub final_text : Ruling → Text → Text → Text
  final_text v text id =
      with_id (services r codec g) user (ok id)
        (with_footer (services r codec g) user (reservation_for g v) text)

  last_kind :
      (n : ℕ) (window : ℤ)
      → (reservation_for g (sends_then_reminds n window)).kind ≡ send_normal_then_reminder
  unfolding with_status
  last_kind n window = refl

  -- The message that reaches the threshold, where the user can be reminded, an id is drawn, every
  -- command and message arrives and the count is exact: it goes out with its footer and id and is
  -- audited, the reminder follows it, and the bot ends locked for the count with no reminder due and two more
  -- messages on it.
  pub last_message_reminds :
      (text reminder_text id : Text) (n : ℕ) (window : ℤ) (w : World r) (b : BotState)
      → cannot_remind user reminder_text ≡ false
      → w.server.fates ≡ []
      → w.wire ≡ []
      → w.ids w.drawn ≡ ok id
      → is_empty id ≡ false
      → Holds r g user.bot_id w.server b
      → suc b.count < max_exact
      → FitsInt64 b.window
      → (Policy.reserve (limits g) b).0 ≡ sends_then_reminds n window
      → let out = send_protected_text (services r codec g) user text reminder_text w in
        let sent = final_text (sends_then_reminds n window) text id in
        (out.0 ≡ (
          record { normal_sent = true; reminder_sent = true; reminder_reason = reason_count },
          none,
        ))
        × (out.1.outbox ≡ (w.outbox ++ out_message sent ∷ []) ++ out_message reminder_text ∷ [])
        × (out.1.audits ≡ w.audits ++ (id, sent) ∷ [])
        × Holds r g user.bot_id out.1.server (reminded (Policy.reserve (limits g) b).1)
  unfolding send_protected_text then_remind audit_sent with_status
  last_message_reminds text reminder_text id n window w b can live clear drawn named h small fw
        goes =
      let v = sends_then_reminds n window in
      let here = services r codec g in
      let a = reserve_normal_send_correct r g user.bot_id w.server b (rw live) h (omega arith) fw in
      let a' = a.0 ∙ ap (λ v. ok (reservation_for g v)) goes in
      let w1 = record w { server = (reserve_normal_send r g user.bot_id w.server).1 } in
      let w2 = record w1 { drawn = suc w.drawn } in
      let sent = final_text v text id in
      let w3 = record w2 {
        outbox = w.outbox ++ out_message sent ∷ [];
        audits = w.audits ++ (id, sent) ∷ [];
      } in
      let k =
        send_with_reservation-sends here user (reservation_for g v) text reminder_text w1
          (kind_of_Sends r codec g user n v (window, inr refl)) in
      let out =
        send_reserved-reminds here user (reservation_for g v) text reminder_text id w1
          (record w2 { outbox = w.outbox ++ out_message sent ∷ [] }) (last_kind n window) drawn
          (rw drawn (send-arrives r user user.ilink_user_id sent user.context_token w2 clear)) in
      let m =
        send_protection_reminder-arrives reminder_text w3 (Policy.reserve (limits g) b).1 can
          (reserve_normal_send-fates r g user.bot_id w.server ∙ ap tail live) clear a.1
          (omega (arith, reserve-count (limits g) b)) in
      rw (a', k, out, drawn, named, m.0) (refl, m.1, m.2, m.3)

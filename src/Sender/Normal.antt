-- ===== src/Sender/Normal.antt =====
-- A message below the threshold.
use webot_msg.Common.{
  ℕ, suc, ◌≤◌, ◌≡◌, refl, ap, ◌∙◌, inl, true, false, none, [], ◌∷◌, ◌++◌, Text, is_empty, ok,
}
use webot_msg.Common.Int.{ℤ, FitsInt64}
use webot_msg.Config.{UserConfig}
use webot_msg.Redis.{Redis, max_exact}
use webot_msg.Protection.Policy
use webot_msg.Protection.Policy.{BotState, sends}
use webot_msg.Protection.Guard.{Reservation, send_normal}
use webot_msg.Protection.Replies.{with_status}
use webot_msg.Protection.RedisGuard.{RedisGuardConfig, PayloadCodec, limits, reserve_normal_send}
use webot_msg.Protection.RedisGuard.Answers.{reservation_for}
use webot_msg.Protection.RedisGuard.Correct.{Holds, reserve_normal_send_correct}
use webot_msg.Sender.ProtectedText.{
  nothing_sent, Services, TextResult, send_protected_text, send_reserved, audit_sent, id_of,
}
use webot_msg.Sender.World.{World, send-arrives, services}
use webot_msg.Sender.Delivery.{message, send_with_reservation-sends, kind_of_Sends}
use webot_msg.Sender.Reminders.{out_message, final_text}

-- What a send reports that went out with no reminder.
abbrev pub sent_alone : TextResult
sent_alone = record nothing_sent { normal_sent = true }

module _ {W : Type 0} (v : Services W) (user : UserConfig) (reservation : Reservation) where
  send_reserved-arrives :
      (text reminder_text id : Text) (w w' : W)
      → reservation.kind ≡ send_normal
      → (v.generate_id w).0 ≡ ok id
      → v.send_message user user.ilink_user_id
          (message v user reservation text w)
          user.context_token
          (v.generate_id w).1
        ≡ (ok tt, w')
      → send_reserved v user reservation text reminder_text w
        ≡ ((sent_alone, none), audit_sent v user id (message v user reservation text w) w')
  unfolding send_reserved id_of
  send_reserved-arrives text reminder_text id w w' k named sent =
      rw sent (simp (k, ap (id_of v user) named))

module _ (r : Redis) (codec : PayloadCodec) (g : RedisGuardConfig) (user : UserConfig) where
  normal_kind : (n : ℕ) (window : ℤ) → (reservation_for g (sends n window)).kind ≡ send_normal
  unfolding with_status
  normal_kind n window = refl

  -- The world after a message: it is out, it is audited, and the server has reserved it.
  abbrev pub after_message : ℕ → ℤ → Text → Text → World r → World r
  after_message n window text id w =
      let sent = final_text r codec g user (sends n window) text id in
      record w {
        server = (reserve_normal_send r g user.bot_id w.server).1;
        drawn = suc w.drawn;
        outbox = w.outbox ++ out_message r codec g user sent ∷ [];
        audits = w.audits ++ (id, sent) ∷ [];
      }

  pub send_protected_text-arrives :
      (text reminder_text id : Text) (n : ℕ) (window : ℤ) (w : World r) (b : BotState)
      → w.server.fates ≡ []
      → w.wire ≡ []
      → w.ids w.drawn ≡ ok id
      → is_empty id ≡ false
      → Holds r g user.bot_id w.server b
      → b.count ≤ max_exact
      → FitsInt64 b.window
      → (Policy.reserve (limits g) b).0 ≡ sends n window
      → send_protected_text (services r codec g) user text reminder_text w
        ≡ ((sent_alone, none), after_message n window text id w)
  unfolding send_protected_text audit_sent with_status
  send_protected_text-arrives text reminder_text id n window w b live clear drawn named h small fw
        goes =
      let v = sends n window in
      let here = services r codec g in
      let a = reserve_normal_send_correct r g user.bot_id w.server b (rw live) h small fw in
      let a' = a.0 ∙ ap (λ v. ok (reservation_for g v)) goes in
      let w1 = record w { server = (reserve_normal_send r g user.bot_id w.server).1 } in
      let w2 = record w1 { drawn = suc w.drawn } in
      let sent = final_text r codec g user v text id in
      let k =
        send_with_reservation-sends here user (reservation_for g v) text reminder_text w1
          (kind_of_Sends r codec g user n v (window, inl refl)) in
      let out =
        send_reserved-arrives here user (reservation_for g v) text reminder_text id w1
          (record w2 { outbox = w.outbox ++ out_message r codec g user sent ∷ [] })
          (normal_kind n window) drawn
          (rw drawn (send-arrives r user user.ilink_user_id sent user.context_token w2 clear)) in
      rw (a', k, out, drawn) (simp named)

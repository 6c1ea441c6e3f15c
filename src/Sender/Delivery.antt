-- ===== src/Sender/Delivery.antt =====
-- What a send does to the bot, the outbox and the database together.
use webot_msg.Common.{
  ℕ, suc, ◌≡◌, refl, ap, subst, ◌∙◌, ◌⊎◌, inl, inr, ◌<◌, Option, some, List, [], ◌∷◌, tail, arith,
  Text, codes, Error, wrapped, ok, err,
}
use webot_msg.Common.Int.{FitsInt64}
use webot_msg.Config.{UserConfig}
use webot_msg.Redis.{Redis, max_exact}
use webot_msg.Protection.Policy
use webot_msg.Protection.Policy.{BotState, unlocked, locked, sends, sends_then_reminds, rejects}
use webot_msg.Protection.Policy.Budget.{Sends, release-reserve, reserve-count}
use webot_msg.Protection.Guard.{Reservation, send_normal, send_normal_then_reminder}
use webot_msg.Protection.RedisGuard.{
  RedisGuardConfig, PayloadCodec, limits, reserve_normal_send, release_normal_send,
}
use webot_msg.Protection.Replies.{with_status}
use webot_msg.Protection.RedisGuard.Answers.{reservation_for, reserve_normal_send-fates}
use webot_msg.Protection.RedisGuard.Correct.{
  Holds, reserve_normal_send_correct, release_normal_send_correct,
}
use webot_msg.Sender.ProtectedText.{
  nothing_sent, Services, send_protected_text, send_with_reservation, send_reserved, send_failed,
  with_id, id_of, with_footer, then_remind, audit_sent,
}
use webot_msg.Sender.World.{World, send-lost, services}

module _ {W : Type 0} (v : Services W) (user : UserConfig) (reservation : Reservation) where
  -- Both kinds of reservation that let the message go.
  pub send_with_reservation-sends :
      (text reminder_text : Text) (w : W)
      → (reservation.kind ≡ send_normal) ⊎ (reservation.kind ≡ send_normal_then_reminder)
      → send_with_reservation v user reservation text reminder_text w
        ≡ send_reserved v user reservation text reminder_text w
  unfolding send_with_reservation
  send_with_reservation-sends text reminder_text w (inl e) = simp e
  send_with_reservation-sends text reminder_text w (inr e) = simp e

  -- The message as it goes out.
  abbrev pub message : Text → W → Text
  message text w = with_id v user (v.generate_id w).0 (with_footer v user reservation text)

  send_reserved-failed :
      (text reminder_text : Text) (e : Error) (w w' : W)
      → v.send_message user user.ilink_user_id
          (message text w)
          user.context_token
          (v.generate_id w).1
        ≡ (err e, w')
      → send_reserved v user reservation text reminder_text w ≡ send_failed v user e w'
  unfolding send_reserved
  send_reserved-failed text reminder_text e w w' h = rw h

  -- A message that goes out with an id, on a reservation that wants the reminder.
  pub send_reserved-reminds :
      (text reminder_text id : Text) (w w' : W)
      → reservation.kind ≡ send_normal_then_reminder
      → (v.generate_id w).0 ≡ ok id
      → v.send_message user user.ilink_user_id
          (message text w)
          user.context_token
          (v.generate_id w).1
        ≡ (ok tt, w')
      → send_reserved v user reservation text reminder_text w
        ≡ then_remind v user reservation reminder_text (audit_sent v user id (message text w) w')
  unfolding send_reserved id_of
  send_reserved-reminds text reminder_text id w w' k named sent =
      rw sent (simp (k, ap (id_of v user) named))

module _ (r : Redis) (codec : PayloadCodec) (g : RedisGuardConfig) (user : UserConfig) where
  abbrev bot : Text
  bot = user.bot_id

  pub kind_of_Sends :
      (n : ℕ) (v : Policy.Ruling)
      → Sends n v
      → ((reservation_for g v).kind ≡ send_normal)
        ⊎ ((reservation_for g v).kind ≡ send_normal_then_reminder)
  unfolding with_status
  kind_of_Sends n v (w, inl e) = inl (rw e)
  kind_of_Sends n v (w, inr e) = inr (rw e)

  -- A failed send is free: if the bot is not locked, the policy lets the message go, the commands
  -- of the guard are answered, the count is exact and the message client then fails, the caller gets
  -- the client's error, nothing is out, nothing is audited, and the bot is in the state it was in.
  pub failed_send_is_free :
      (text reminder_text : Text) (n : ℕ) (e : Error) (wire : List (Option Error)) (w : World r)
      (b : BotState)
      → w.server.fates ≡ []
      → w.wire ≡ some e ∷ wire
      → Holds r g user.bot_id w.server b
      → b.count < max_exact
      → FitsInt64 b.window
      → b.lock ≡ unlocked
      → Sends n (Policy.reserve (limits g) b).0
      → let out = send_protected_text (services r codec g) user text reminder_text w in
        (out.0 ≡ (nothing_sent, some (wrapped (codes "send failed") e)))
        × (out.1.outbox ≡ w.outbox)
        × (out.1.audits ≡ w.audits)
        × Holds r g user.bot_id out.1.server b
  unfolding send_protected_text send_failed
  failed_send_is_free text reminder_text n e wire w b live lost h small fw free goes =
      let a = reserve_normal_send_correct r g bot w.server b (rw live) h (omega arith) fw in
      let v = (Policy.reserve (limits g) b).0 in
      let w1 = record w { server = (reserve_normal_send r g bot w.server).1 } in
      let k =
        send_with_reservation-sends (services r codec g) user (reservation_for g v) text
          reminder_text w1 (kind_of_Sends n v goes) in
      let w2 = record w1 { drawn = suc w.drawn } in
      let text' = message (services r codec g) user (reservation_for g v) text w1 in
      let sent = send-lost r user user.ilink_user_id text' user.context_token e wire w2 lost in
      let w3 = record w2 { wire = wire } in
      let k' =
        send_reserved-failed (services r codec g) user (reservation_for g v) text reminder_text e w1
          w3 sent in
      let fates = reserve_normal_send-fates r g bot w.server ∙ ap tail live in
      let c =
        release_normal_send_correct r g bot w1.server (Policy.reserve (limits g) b).1 (rw fates) a.1
          (omega (arith, reserve-count (limits g) b)) in
      rw (a.0, k, k', c.0)
        (
          refl,
          refl,
          refl,
          subst (Holds r g bot (release_normal_send r g bot w1.server).1)
              (release-reserve (limits g) n b free goes) c.1,
        )

-- ===== src/Tests/Senders.antt =====
-- A message that fails, and the last message of a conversation.
use webot_msg.Common.{
  ◌≡◌, refl, inl, true, some, none, [], ◌∷◌, arith, codes, wrapped, outer, is_empty,
}
use webot_msg.Common.Int.{pos, int64, ◌-ℤ◌, quot}
use webot_msg.Redis.Memory.{memory}
use webot_msg.Protection.Policy.{reserve, reserve_from, reserve_unlocked, count_one}
use webot_msg.Protection.Scripts.{no_window, reason_count}
use webot_msg.Protection.RedisGuard.{threshold, milliseconds}
use webot_msg.Sender.ProtectedText.{nothing_sent, send_protected_text}
use webot_msg.Sender.World.{services}
use webot_msg.Sender.Delivery.{failed_send_is_free}
use webot_msg.Sender.Reminders.{last_message_reminds}
use webot_msg.Tests.Setup.{
  config, open_bot, open_bot-Holds, codec, user, world, last_server, last_bot, last_bot-Holds,
}

failed_send_is_free_example :
    (send_protected_text
      (services memory codec config)
      user
      (codes "hi")
      (codes "answer!")
      (record world { wire = some (outer 7) ∷ [] })).0
    ≡ (nothing_sent, some (wrapped (codes "send failed") (outer 7)))
unfolding reserve reserve_from reserve_unlocked count_one no_window threshold milliseconds int64
    ◌-ℤ◌ quot
failed_send_is_free_example =
    (failed_send_is_free memory codec config user (codes "hi") (codes "answer!") 1 (outer 7) []
      (record world { wire = some (outer 7) ∷ [] }) open_bot refl refl open_bot-Holds (omega arith)
      (omega arith) refl (pos 3600000, inl refl)).0

last_message_reminds_example :
    (send_protected_text
      (services memory codec config)
      user
      (codes "hi")
      (codes "answer!")
      (record world { server = last_server })).0
    ≡ (record { normal_sent = true; reminder_sent = true; reminder_reason = reason_count }, none)
unfolding reserve reserve_from reserve_unlocked count_one no_window threshold milliseconds int64
    ◌-ℤ◌ quot is_empty
last_message_reminds_example =
    (last_message_reminds memory codec config user (codes "hi") (codes "answer!") (b'#' ∷ []) 8
      (pos 3600000) (record world { server = last_server }) last_bot refl refl refl refl refl
      last_bot-Holds (omega arith) (omega arith) refl).0

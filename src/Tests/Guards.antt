-- ===== src/Tests/Guards.antt =====
-- The guard at work on the database in memory.
use webot_msg.Common.{
  tail, List, some, none, Text, ◌≡◌, ◌≢◌, refl, inl, false, [], ◌∷◌, arith, codes, ok,
}
use webot_msg.Common.Int.{ℤ, ltb_ℤ, pos, int64, ◌-ℤ◌}
use webot_msg.Redis.Memory.{memory}
use webot_msg.Protection.Guard.{normal_rejected, Status}
use webot_msg.Protection.Policy
use webot_msg.Protection.Policy.{BotState, sends, sends_then_reminds}
use webot_msg.Protection.RedisGuard
use webot_msg.Protection.Scripts
use webot_msg.Protection.RedisGuard.{Server}
use webot_msg.Protection.RedisGuard.{limits, threshold, milliseconds}
use webot_msg.Protection.RedisGuard.Answers.{reservation_for, ingress_for, decision_for}
use webot_msg.Protection.RedisGuard.Correct.{
  Holds, reserve_normal_send_correct, release_normal_send_correct, check_time_window_correct,
  acquire_or_enqueue_correct,
}
use webot_msg.Protection.RedisGuard.Conversation.{
  record_reminder_send_correct, record_active_conversation_correct, peek_queued_correct, marshalled,
  drop_front_correct,
}
use webot_msg.Protection.RedisGuard.Reporting.{
  protection_status, protection_status_lem, ttl_duration,
}
use webot_msg.Protection.RedisGuard.Faults.{Rejects, fails_closed}
use webot_msg.Protection.History.{History, CalmHistory}
use webot_msg.Protection.History.Silence.{locked_bot_is_silent}
use webot_msg.Protection.Keys.{state_key, keys_disjoint}
use webot_msg.Tests.Setup.{
  config, bot, server, open_bot, open_bot-Holds, codec, long_ttl, long_window, late_server,
  late_bot, late_bot-Holds,
}

keys_disjoint_example : state_key (codes "p") (codes "b") ≢ state_key (codes "p") (codes "bb")
keys_disjoint_example = (keys_disjoint (codes "p") (codes "b") (codes "bb") (λ e. cc)).0

threshold_lem : threshold config ≡ pos 8
unfolding threshold int64 ◌-ℤ◌
threshold_lem = refl

reserve_normal_send_correct_example :
    (RedisGuard.reserve_normal_send memory config bot server).0
    ≡ ok (reservation_for config (Policy.reserve (limits config) open_bot).0)
reserve_normal_send_correct_example =
    (reserve_normal_send_correct memory config bot server open_bot refl open_bot-Holds (omega arith)
      (omega arith)).0

release_normal_send_correct_example :
    (RedisGuard.release_normal_send memory config bot server).0 ≡ ok tt
release_normal_send_correct_example =
    (release_normal_send_correct memory config bot server open_bot refl open_bot-Holds
      (omega arith)).0

check_time_window_correct_example :
    (RedisGuard.check_time_window memory config bot server).0
    ≡ ok (decision_for (Policy.check_window (limits config) open_bot).0)
check_time_window_correct_example =
    (check_time_window_correct memory config bot server open_bot refl open_bot-Holds).0

acquire_or_enqueue_correct_example :
    (RedisGuard.acquire_or_enqueue memory codec config bot (codes "hi") server).0
    ≡ ok (
        ingress_for config
          (Policy.acquire (limits config) (codec.marshal (codes "hi") (pos 1000)) open_bot).0)
acquire_or_enqueue_correct_example =
    (acquire_or_enqueue_correct memory codec config bot (codes "hi") server open_bot refl
      open_bot-Holds (omega arith) (omega arith) (omega arith) long_ttl).0

record_reminder_send_correct_example :
    (RedisGuard.record_reminder_send memory config bot server).0 ≡ ok tt
record_reminder_send_correct_example =
    (record_reminder_send_correct memory config bot server open_bot refl open_bot-Holds
      (omega arith)).0

record_active_conversation_correct_example :
    (RedisGuard.record_active_conversation memory config bot server).0 ≡ ok tt
record_active_conversation_correct_example =
    (record_active_conversation_correct memory config bot server open_bot refl open_bot-Holds
      long_window).0

-- A locked bot after one message came in: the message waits.
waiting : Server memory
waiting = (RedisGuard.acquire_or_enqueue memory codec config bot (codes "hi") late_server).1

waiting_bot : BotState
waiting_bot = (Policy.acquire (limits config) (codec.marshal (codes "hi") (pos 1000)) late_bot).1

waiting-Holds : Holds memory config bot waiting waiting_bot
unfolding waiting waiting_bot
waiting-Holds =
    (acquire_or_enqueue_correct memory codec config bot (codes "hi") late_server late_bot refl
      late_bot-Holds (omega arith) (omega arith) (omega arith) long_ttl).1

abbrev greeting : List (Text × ℤ)
greeting = (codes "hi", pos 1000) ∷ []

peek_queued_correct_example :
    ((RedisGuard.peek_queued memory codec config bot waiting).0 ≡ ok (some (codes "hi", pos 1000)))
    × ((RedisGuard.peek_queued memory codec config bot waiting).1.db ≡ waiting.db)
    × ((RedisGuard.peek_queued memory codec config bot
          (RedisGuard.drop_front memory codec config bot
            (RedisGuard.peek_queued memory codec config bot waiting).1).1).0
        ≡ ok none)
unfolding waiting waiting_bot marshalled Policy.acquire RedisGuard.acquire_or_enqueue
    RedisGuard.run_script RedisGuard.call Policy.put
peek_queued_correct_example =
    peek_queued_correct memory config bot codec waiting waiting_bot greeting refl refl refl
      waiting-Holds refl

protection_status_lem_example :
    (status : Status) × (protection_status memory codec config bot server ≡ (ok status, server))
    × (status.frozen ≡ false)
    × (status.reminder_pending ≡ false)
    × (status.queued_count ≡ 0)
    × (status.active_window_ready ≡ ltb_ℤ (pos 0) (ttl_duration open_bot.window))
protection_status_lem_example =
    protection_status_lem memory codec config bot server open_bot refl open_bot-Holds

drop_front_correct_example :
    ((RedisGuard.drop_front memory codec config bot waiting).0 ≡ ok tt)
    × Holds memory config bot
        (RedisGuard.drop_front memory codec config bot waiting).1
        (record waiting_bot { queue = tail waiting_bot.queue })
unfolding waiting RedisGuard.acquire_or_enqueue RedisGuard.run_script RedisGuard.call
drop_front_correct_example =
    drop_front_correct memory config bot codec waiting waiting_bot refl waiting-Holds

fails_closed_example : Rejects (RedisGuard.reserve_normal_send memory config bot server).0
fails_closed_example = (fails_closed memory config bot server).0

-- A send that failed was released before.
released : Server memory
released = (RedisGuard.release_normal_send memory config bot server).1

locked_bot_is_silent_example :
    (RedisGuard.reserve_normal_send memory config bot late_server).0
    ≡ ok (normal_rejected (codes "time"))
locked_bot_is_silent_example =
    (locked_bot_is_silent memory codec config bot long_ttl (codes "hi") (codes "time") 0 late_server
      late_server late_bot late_bot-Holds (false, refl, inl refl) (omega arith) CalmHistory.start
      refl (omega arith) (omega arith)).0

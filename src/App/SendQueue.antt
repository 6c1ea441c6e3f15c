-- ===== src/App/SendQueue.antt =====
-- internal/app/send_queue.go: the loop that sends the messages of a queue once a conversation has
-- opened the bot again. Times are numbers of nanoseconds; how a time prints is a parameter.
pub mod Rounds
pub mod Draining
use webot_msg.Common.{
  ℕ, zero, suc, Bool, true, false, not, ◌||◌, ◌++◌, Option, none, some, if◌then◌else◌, Text, codes,
  is_empty, Error, Result, ok, err,
}
use webot_msg.Common.Int.{ℤ, pos, negsuc, ◌-ℤ◌, ◌*ℤ◌, ltb_ℤ, leb_ℤ}
use webot_msg.Config.{UserConfig}
use webot_msg.Protection.Guard.{QueueController}
use webot_msg.Protection.Replies.{millisecond}
use webot_msg.Protection.RuntimeGuard.{EnableConfig}
use webot_msg.Sender.ProtectedText.{Services, TextResult, send_protected_text}

-- Nanoseconds in a day.
abbrev pub day : ℕ
day = 86400000000000

-- `buildBacklogReplayNotice`
unfoldable pub build_backlog_replay_notice : (ℤ → Text) → ℤ → Text
build_backlog_replay_notice format_time enqueued_ms =
    if leb_ℤ enqueued_ms (pos 0)
    then codes "[积压补发] 收到 API 调用时间未知；该消息因发送保护限制进入积压队列，恢复后延迟补发。"
    else codes "[积压补发] 收到 API 调用时间："
      ++ (format_time enqueued_ms ++ codes "；该消息因发送保护限制进入积压队列，恢复后延迟补发。")

unfoldable pub send_queue_ttl : EnableConfig → ℤ
send_queue_ttl cfg =
    if ltb_ℤ (pos 0) cfg.queue_ttl
    then cfg.queue_ttl
    else if ltb_ℤ (pos 0) cfg.active_window
    then cfg.active_window
    else pos day

-- `time.Time.Sub`, which stops at the ends of a Duration.
unfoldable pub time_sub : ℤ → ℤ → ℤ
time_sub t u =
    let d = t -ℤ u in
    if ltb_ℤ (pos 9223372036854775807) d
    then pos 9223372036854775807
    else if ltb_ℤ d (negsuc 9223372036854775807)
    then negsuc 9223372036854775807
    else d

-- `sendQueuePayloadExpired`
unfoldable pub payload_expired : ℤ → ℤ → ℤ → Bool
payload_expired now enqueued_ms ttl =
    if leb_ℤ ttl (pos 0) || leb_ℤ enqueued_ms (pos 0)
    then false
    else ltb_ℤ ttl (time_sub now (enqueued_ms *ℤ millisecond))

-- What the loop works with, besides the services: the context of the loop, the clock and the store,
-- as they are found in the state, and the app's settings.
pub record Replay (W : Type 0) : Type 0 where
  pub services : Services W
  pub controller : QueueController W
  pub cancelled : W → Bool
  pub now : W → ℤ
  pub get_bot : Text → W → Option UserConfig
  pub format_time : ℤ → Text
  pub ttl : ℤ
  pub reminder_text : Text

-- Why the loop ended.
pub data Ending : Type 0 where
  out_of_fuel loop_cancelled queue_empty bot_not_found context_not_ready message_not_sent : Ending
  peek_failed expired_drop_failed send_stopped pop_failed : Error → Ending

-- One round goes on or ends the loop.
pub data Round : Type 0 where
  goes_on : Round
  ends : Ending → Round

module _ {W : Type 0} (env : Replay W) (bot : Text) where
  open env use {services, controller, cancelled, now, get_bot, format_time, ttl, reminder_text}

  after_expired : Result (Unit {0}) × W → Round × W
  after_expired (ok done, w) = (goes_on, w)
  after_expired (err e, w) = (ends (expired_drop_failed e), w)

  -- `dropSentQueueFront`
  abbrev pub after_pop : Result (Unit {0}) × W → Round × W
  after_pop (ok done, w) = (goes_on, w)
  after_pop (err e, w) = (ends (pop_failed e), w)

  unfoldable pub after_replay : (TextResult × Option Error) × W → Round × W
  after_replay ((result, some e), w) = (ends (send_stopped e), w)
  after_replay ((result, none), w) =
      if result.normal_sent
      then after_pop (controller.drop_front bot w)
      else (ends message_not_sent, w)

  abbrev pub replay_text : Text → ℤ → Text
  replay_text text enqueued_ms =
      build_backlog_replay_notice format_time enqueued_ms ++ (codes "\n" ++ text)

  unfoldable pub replay_for : Option UserConfig → Text → ℤ → W → Round × W
  unfolding after_replay
  replay_for none text enqueued_ms w = (ends bot_not_found, w)
  replay_for (some user) text enqueued_ms w =
      if is_empty user.ilink_user_id || is_empty user.context_token
      then (ends context_not_ready, w)
      else if cancelled w
      then (ends loop_cancelled, w)
      else after_replay
          (send_protected_text services user (replay_text text enqueued_ms) reminder_text w)

  unfoldable pub with_payload : Result (Option (Text × ℤ)) × W → Round × W
  unfolding after_expired replay_for
  with_payload (err e, w) = (ends (peek_failed e), w)
  with_payload (ok none, w) = (ends queue_empty, w)
  with_payload (ok (some (text, enqueued_ms)), w) =
      if payload_expired (now w) enqueued_ms ttl
      then after_expired (controller.drop_front bot w)
      else replay_for (get_bot bot w) text enqueued_ms w

  unfoldable pub drain_round : W → Round × W
  unfolding with_payload
  drain_round w =
      if cancelled w then (ends loop_cancelled, w) else with_payload (controller.peek_queued bot w)

  abbrev pub after_round : Round → W → Ending × W → Ending × W
  after_round (ends ending) w rest = (ending, w)
  after_round goes_on w rest = rest

  -- The rounds, with fuel.
  unfoldable pub drain_send_queue : ℕ → W → Ending × W
  drain_send_queue zero w = (out_of_fuel, w)
  drain_send_queue (suc fuel) w =
      let (round, w') = drain_round w in
      let rest = drain_send_queue fuel w' in after_round round w' rest

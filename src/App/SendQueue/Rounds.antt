-- ===== src/App/SendQueue/Rounds.antt =====
-- One round of the loop that replays a message.
use webot_msg.Common.{
  ℕ, ◌≤◌, ◌≡◌, ap, ◌∙◌, false, some, List, [], ◌∷◌, tail, Text, is_empty, ok, head?,
}
use webot_msg.Common.Int.{ℤ, FitsInt64, ◌*ℤ◌}
use webot_msg.Config.{UserConfig}
use webot_msg.Redis.{Redis, max_exact}
use webot_msg.Protection.Policy
use webot_msg.Protection.Policy.{BotState, sends}
use webot_msg.Protection.Replies.{millisecond}
use webot_msg.Protection.Keys.{queue_key}
use webot_msg.Protection.RedisGuard
use webot_msg.Protection.RedisGuard.{
  RedisGuardConfig, PayloadCodec, Server, limits, peeked, reject_lost,
}
use webot_msg.Protection.RedisGuard.Answers.{reserve_normal_send-fates}
use webot_msg.Protection.RedisGuard.Correct.{Holds, reserve_normal_send_correct}
use webot_msg.Protection.RedisGuard.Conversation.{drop_front_correct}
use webot_msg.Protection.RedisGuard.Reporting.{call_reads}
use webot_msg.Sender.World.{World, services, world_queue}
use webot_msg.Sender.Normal.{after_message, send_protected_text-arrives}
use webot_msg.App.SendQueue.{
  Replay, goes_on, ends, queue_empty, drain_round, with_payload, replay_for, after_replay,
  payload_expired, replay_text,
}

-- The settings of the loop that stay as they are.
pub record Settings : Type 0 where
  pub format_time : ℤ → Text
  pub ttl : ℤ
  pub reminder_text : Text

module _ (r : Redis) (codec : PayloadCodec) (g : RedisGuardConfig) (user : UserConfig)
    (set : Settings) where
  -- The loop at work on the bot of a user, who stays in the store; nobody cancels it.
  abbrev pub replay : Replay (World r)
  replay = record {
    services = services r codec g;
    controller = world_queue r codec g;
    cancelled = λ w. false;
    now = λ w. w.server.now_ms *ℤ millisecond;
    get_bot = λ bot w. some user;
    format_time = set.format_time;
    ttl = set.ttl;
    reminder_text = set.reminder_text;
  }

  peek_lem :
      (w : World r) (b : BotState) (text : Text) (ms : ℤ) (rest : List Text)
      → w.server.fates ≡ []
      → Holds r g user.bot_id w.server b
      → b.queue ≡ codec.marshal text ms ∷ rest
      → replay.controller.peek_queued user.bot_id w ≡ (ok (some (text, ms)), w)
  unfolding RedisGuard.peek_queued reject_lost peeked
  peek_lem w b text ms rest live h q =
      let read =
        call_reads r codec g user.bot_id w.server
          (λ db. r.lfirst (queue_key g.key_prefix user.bot_id) db) live in
      let first =
        r.lfirst-lrange (queue_key g.key_prefix user.bot_id) w.server.db
        ∙ ap head? (h.queue_as ∙ q) in
      simp (read, first, codec.unmarshal-marshal)

  -- A message that goes out alone is taken off the queue, and the loop goes on.
  pub drain_round-replays :
      (w : World r) (b : BotState) (text id : Text) (ms window : ℤ) (n : ℕ) (rest : List Text)
      → is_empty user.ilink_user_id ≡ false
      → is_empty user.context_token ≡ false
      → w.server.fates ≡ []
      → w.wire ≡ []
      → w.ids w.drawn ≡ ok id
      → is_empty id ≡ false
      → Holds r g user.bot_id w.server b
      → b.count ≤ max_exact
      → FitsInt64 b.window
      → b.queue ≡ codec.marshal text ms ∷ rest
      → payload_expired (w.server.now_ms *ℤ millisecond) ms set.ttl ≡ false
      → (Policy.reserve (limits g) b).0 ≡ sends n window
      → let sent =
          after_message r codec g user n window (replay_text replay user.bot_id text ms) id w in
        drain_round replay user.bot_id w ≡ (
          goes_on,
          record sent { server = (RedisGuard.drop_front r codec g user.bot_id sent.server).1 },
        )
  unfolding drain_round with_payload replay_for after_replay
  drain_round-replays w b text id ms window n rest known ready live clear drawn named h small fw q
        fresh goes =
      let a = reserve_normal_send_correct r g user.bot_id w.server b (rw live) h small fw in
      let sent =
        send_protected_text-arrives r codec g user (replay_text replay user.bot_id text ms)
          set.reminder_text id n window w b live clear drawn named h small fw goes in
      let fates = reserve_normal_send-fates r g user.bot_id w.server ∙ ap tail live in
      let d =
        drop_front_correct r g user.bot_id codec
          (RedisGuard.reserve_normal_send r g user.bot_id w.server).1
          (Policy.reserve (limits g) b).1 (rw fates) a.1 in
      simp (peek_lem w b text ms rest live h q, fresh, known, ready, sent, d.0)

  -- With nothing left in the queue the loop ends.
  pub drain_round-empty :
      (w : World r) (b : BotState)
      → w.server.fates ≡ []
      → Holds r g user.bot_id w.server b
      → b.queue ≡ []
      → drain_round replay user.bot_id w ≡ (ends queue_empty, w)
  unfolding drain_round with_payload RedisGuard.peek_queued reject_lost peeked
  drain_round-empty w b live h q =
      let read =
        call_reads r codec g user.bot_id w.server
          (λ db. r.lfirst (queue_key g.key_prefix user.bot_id) db) live in
      let first =
        r.lfirst-lrange (queue_key g.key_prefix user.bot_id) w.server.db
        ∙ ap head? (h.queue_as ∙ q) in
      simp (read, first)

-- ===== src/App/SendQueue/Draining.antt =====
-- What the loop does to a queue: it is first in, first out, and ends.
use webot_msg.Common.{
  ℕ, zero, suc, ◌+◌, ◌≤◌, ◌<◌, ◌≡◌, refl, ap, subst, sym, ◌∙◌, false, List, [], ◌∷◌, ◌++◌, tail,
  arith, Text, is_empty, ok, length, append_assoc, append-nil,
}
use webot_msg.Common.Int.{ℤ, pos, FitsInt64, ◌*ℤ◌, ◌<ℤ◌, leb_ℤ}
use webot_msg.Config.{UserConfig}
use webot_msg.Redis.{Redis, max_exact}
use webot_msg.Protection.Policy.{BotState, unlocked, sends}
use webot_msg.Protection.Policy.Budget.{sent_one}
use webot_msg.Protection.Scripts.{no_window}
use webot_msg.Protection.Replies.{millisecond}
use webot_msg.Protection.RedisGuard
use webot_msg.Protection.RedisGuard.{
  RedisGuardConfig, PayloadCodec, Server, limits, threshold, milliseconds,
}
use webot_msg.Protection.RedisGuard.Answers.{
  reserve_normal_send-fates, reserve_normal_send-now_ms, drop_front-fates, drop_front-now_ms,
}
use webot_msg.Protection.RedisGuard.Correct.{Holds, reserve_normal_send_correct}
use webot_msg.Protection.RedisGuard.Conversation.{drop_front_correct}
use webot_msg.Sender.World.{World, Message}
use webot_msg.Sender.Normal.{after_message}
use webot_msg.Sender.Reminders.{out_message, final_text}
use webot_msg.App.SendQueue.{queue_empty, drain_send_queue, payload_expired, replay_text}
use webot_msg.App.SendQueue.Rounds.{Settings, replay, drain_round-replays, drain_round-empty}

module _ (r : Redis) (codec : PayloadCodec) (g : RedisGuardConfig) (user : UserConfig)
    (set : Settings) (name : ℕ → Text) where
  -- A message that waits, and when it came in.
  abbrev pub stored : List (Text × ℤ) → List Text
  stored [] = []
  stored ((text, ms) ∷ waiting) = codec.marshal text ms ∷ stored waiting

  abbrev pub Fresh : ℤ → List (Text × ℤ) → Type 0
  Fresh now_ms [] = Unit {0}
  Fresh now_ms ((text, ms) ∷ waiting) =
      (payload_expired (now_ms *ℤ millisecond) ms set.ttl ≡ false) × Fresh now_ms waiting

  -- The messages as they go out: after `count` others, the id being the one drawn.
  abbrev pub replayed : List (Text × ℤ) → ℕ → ℕ → ℤ → List Message
  replayed [] count drawn window = []
  replayed ((text, ms) ∷ waiting) count drawn window =
      out_message r codec g user (
        final_text r codec g user (sends (suc count) window)
          (replay_text (replay r codec g user set) user.bot_id text ms) (name drawn))
      ∷ replayed waiting (suc count) (suc drawn) window

  -- Nothing stands in the way: the network, the ids, and a user who has written to the bot.
  pub record Clear (w : World r) : Type 0 where
    pub live : w.server.fates ≡ []
    pub clear : w.wire ≡ []
    pub named : (i : ℕ) → w.ids i ≡ ok (name i)

  -- The world after a round.
  abbrev pub after_round : ℕ → ℤ → Text → ℤ → World r → World r
  after_round n window text ms w =
      let sent =
        after_message r codec g user n window
          (replay_text (replay r codec g user set) user.bot_id text ms) (name w.drawn) w in
      record sent { server = (RedisGuard.drop_front r codec g user.bot_id sent.server).1 }

  after_round-Clear :
      (n : ℕ) (window : ℤ) (text : Text) (ms : ℤ) (w : World r)
      → Clear w
      → Clear (after_round n window text ms w)
  after_round-Clear n window text ms w c = record {
    live =
        drop_front-fates r g user.bot_id (RedisGuard.reserve_normal_send r g user.bot_id w.server).1
          codec
        ∙ ap tail (reserve_normal_send-fates r g user.bot_id w.server ∙ ap tail c.live);
    clear = c.clear;
    named = c.named;
  }

  same_bot : (b : BotState) → b.queue ≡ [] → b ≡ record b { queue = []; count = b.count + 0 }
  same_bot b q = let e : b.count + 0 ≡ b.count = omega arith in rw (e, ← q) refl

  -- With a network that answers, ids that are there, a user with a context, an open bot whose
  -- window is running and not within the time of warning, messages that have not expired, and a
  -- count that stays below the threshold with all that wait, fuel above the length of the queue is
  -- enough: the loop, if nobody cancels it and the clock stands still meanwhile, ends because the
  -- queue is empty, the messages went out in the order in which they waited, each with its notice,
  -- its footer and its id, and the bot has no queue and has them counted.
  pub drains_whole_queue :
      (waiting : List (Text × ℤ)) (fuel : ℕ) (w : World r) (b : BotState)
      → ((i : ℕ) → is_empty (name i) ≡ false)
      → is_empty user.ilink_user_id ≡ false
      → is_empty user.context_token ≡ false
      → Clear w
      → Holds r g user.bot_id w.server b
      → b.queue ≡ stored waiting
      → Fresh w.server.now_ms waiting
      → b.lock ≡ unlocked
      → no_window b.window ≡ false
      → leb_ℤ b.window (milliseconds g.time_warning_before) ≡ false
      → FitsInt64 b.window
      → pos (b.count + length waiting) <ℤ threshold g
      → b.count + length waiting ≤ max_exact
      → length waiting < fuel
      → let out = drain_send_queue (replay r codec g user set) user.bot_id fuel w in
        (out.0 ≡ queue_empty)
        × (out.1.outbox ≡ w.outbox ++ replayed waiting b.count w.drawn b.window)
        × Holds r g user.bot_id out.1.server
            (record b { queue = []; count = b.count + length waiting })
  unfolding drain_send_queue
  drains_whole_queue [] zero w b named known ready c h q fresh free wide early fw room small
        enough =
      elim enough [ ]
  drains_whole_queue ((text, ms) ∷ waiting) zero w b named known ready c h q fresh free wide early
        fw room small enough =
      elim enough [ ]
  drains_whole_queue [] (suc fuel) w b named known ready c h q fresh free wide early fw room small
        enough =
      simp (drain_round-empty r codec g user set w b c.live h q, append-nil)
        (refl, refl, subst (λ s. Holds r g user.bot_id w.server s) (same_bot b q) h)
  drains_whole_queue ((text, ms) ∷ waiting) (suc fuel) w b named known ready c h q fresh free wide
        early fw room small enough =
      let room' : pos (suc b.count) <ℤ threshold g = omega arith in
      let goes = sent_one (limits g) b free wide early room' in
      let one =
        drain_round-replays r codec g user set w b text (name w.drawn) ms b.window (suc b.count)
          (stored waiting) known ready c.live c.clear (c.named w.drawn) (named w.drawn) h
          (omega arith) fw q fresh.0 (ap (λ p. p.0) goes) in
      let (reserved, kept) =
        reserve_normal_send_correct r g user.bot_id w.server b (rw c.live) h (omega arith) fw in
      let s1 = (RedisGuard.reserve_normal_send r g user.bot_id w.server).1 in
      let h1 = subst (Holds r g user.bot_id s1) (ap (λ p. p.1) goes) kept in
      let fates = reserve_normal_send-fates r g user.bot_id w.server ∙ ap tail c.live in
      let b1 = record b { count = suc b.count } in
      let (dropped, h2) = drop_front_correct r g user.bot_id codec s1 b1 (rw fates) h1 in
      let w' = after_round (suc b.count) b.window text ms w in
      let time =
        drop_front-now_ms r g user.bot_id s1 codec
        ∙ reserve_normal_send-now_ms r g user.bot_id w.server in
      let (ending, out, held) =
        drains_whole_queue waiting fuel w' (record b1 { queue = tail b.queue }) named known ready
          (after_round-Clear (suc b.count) b.window text ms w c) h2 (ap tail q)
          (subst (λ t. Fresh t waiting) (sym time) fresh.1) free wide early fw (omega arith)
          (omega arith) (omega arith) in
      let total : suc b.count + length waiting ≡ b.count + suc (length waiting) = omega arith in
      rw (one, ← total) (ending, out ∙ append_assoc w.outbox _ _, held)

-- ===== src/Protection/History/Budget.antt =====
-- The messages between two conversations, counted over everything that can happen.
use webot_msg.Common.{ℕ, suc, ◌+◌, ◌≤◌, ◌≡◌, true, false, arith, Text}
use webot_msg.Common.Int.{ℤ, pos, leb_ℤ, ◌<ℤ◌}
use webot_msg.Strconv.{itoa}
use webot_msg.Redis.{Redis, max_exact}
use webot_msg.Protection.Policy
use webot_msg.Protection.Policy.{
  BotState, Ruling, unlocked, locked, sends, sends_then_reminds, activate,
}
use webot_msg.Protection.Policy.Steps
use webot_msg.Protection.Policy.Steps.{Reach}
use webot_msg.Protection.Policy.Settled.{Quiet-Reach}
use webot_msg.Protection.Scripts
use webot_msg.Protection.Scripts.{reason_count}
use webot_msg.Protection.Keys.{state_key, active_key, keys_distinct}
use webot_msg.Protection.Refine.Releases.{record_active_conversation-Represents}
use webot_msg.Protection.RedisGuard.{
  RedisGuardConfig, limits, threshold, milliseconds, PayloadCodec, Server,
  record_active_conversation, run_script, evaluated,
}
use webot_msg.Protection.RedisGuard.Correct.{Holds}
use webot_msg.Protection.History.{
  History, start, calmly, talks, runs, Follows, Calm-Follows, call-Follows, evaluated_db,
}

-- A message that goes was let go by an open bot, and takes the number behind its count: under the
-- threshold it leaves the bot open with that count; at the threshold it brings the reminder and leaves
-- the bot locked. Any other ruling lets nothing go and leaves the count.
abbrev pub IsBudgeted : ℤ → BotState → Ruling → BotState → Type 0
IsBudgeted threshold before (sends n window) after =
    (before.lock ≡ unlocked)
    × (n ≡ suc before.count)
    × (pos n <ℤ threshold)
    × (after ≡ record before { count = n })
IsBudgeted threshold before (sends_then_reminds n window) after =
    (before.lock ≡ unlocked)
    × (n ≡ suc before.count)
    × (threshold ≡ pos n)
    × (after ≡ record before { lock = locked reason_count true; count = n })
IsBudgeted threshold before _ after = after.count ≡ before.count

module _ (r : Redis) (codec : PayloadCodec) (g : RedisGuardConfig) (bot : Text) where
  module _ (alive : leb_ℤ (milliseconds g.queue_ttl) (pos 0) ≡ false)
      (long : leb_ℤ (milliseconds g.active_window) (pos 0) ≡ false) where
    -- A conversation is recorded, maybe more than once, or its request is lost.
    talk-Reach :
        (s : Server r) (b : BotState)
        → Holds r g bot s b
        → b.count + runs s.fates ≤ max_exact
        → Follows r codec g bot
            (Reach (limits g))
            (runs s.fates)
            b
            (record_active_conversation r g bot s).1.db
    unfolding record_active_conversation run_script activate
    talk-Reach s b h small =
        let script =
          Scripts.record_active_conversation r (state_key g.key_prefix bot)
            (active_key g.key_prefix bot) (itoa s.now_ms) (milliseconds g.active_window) in
        call-Follows r codec g bot (Reach (limits g)) (λ c. Reach.start)
          (λ x y z p q. Steps.Reach-trans p q) (λ db. evaluated r (script db))
          (λ c db here room.
            let m =
              record_active_conversation-Represents r _ _ _ (keys_distinct g.key_prefix bot)
                (itoa s.now_ms) (milliseconds g.active_window) db c long here in
            rw (evaluated_db r codec g bot (script db), m.1)
              (
                activate (milliseconds g.active_window) c,
                Reach.next Reach.start (Steps.Step.activates (milliseconds g.active_window)),
                m.2,
                omega arith,
              ))
          s b h small

    -- The policy can follow every history.
    pub History-Reach :
        {s t : Server r} {n : ℕ} (b : BotState)
        → Holds r g bot s b
        → b.count + n ≤ max_exact
        → History r codec g bot s n t
        → (b' : BotState) × Reach (limits g) b b' × Holds r g bot t b' × (b'.count ≤ b.count + n)
    History-Reach b h small start = (b, Reach.start, h, omega arith)
    History-Reach b h small (calmly past st) =
        let (b1, q1, h1, c1) = History-Reach b h (omega arith) past in
        let (b2, q2, h2, c2) = Calm-Follows r codec g bot alive b1 h1 (omega arith) st in
        (b2, Quiet-Reach q1 q2, h2, omega arith)
    History-Reach b h small (talks past) =
        let (b1, q1, h1, c1) = History-Reach b h (omega arith) past in
        let (b2, q2, h2, c2) = talk-Reach _ b1 h1 (omega arith) in
        (b2, Steps.Reach-trans q1 q2, h2, omega arith)

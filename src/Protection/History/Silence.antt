-- ===== src/Protection/History/Silence.antt =====
-- A bot that is locked for good is silent until the next conversation.
use webot_msg.Common.{ℕ, ◌+◌, ◌≤◌, ◌≡◌, ◌≢◌, ap, ◌∙◌, true, false, arith, Text, ok, length}
use webot_msg.Common.Int.{pos, leb_ℤ, FitsInt64}
use webot_msg.Redis.{Redis, max_exact}
use webot_msg.Protection.Guard.{normal_rejected, Ingress, send_now}
use webot_msg.Protection.Policy.{BotState, put}
use webot_msg.Protection.Policy.Settled.{Quiet, Quiet-trans, IsSettled, settled_silent}
use webot_msg.Protection.Keys.{active_key, queue_key}
use webot_msg.Protection.RedisGuard.{
  RedisGuardConfig, limits, milliseconds, PayloadCodec, Server, reserve_normal_send,
  acquire_or_enqueue,
}
use webot_msg.Protection.RedisGuard.Answers.{answers, reservation_for, ingress_for}
use webot_msg.Protection.RedisGuard.Correct.{
  Holds, reserve_normal_send_correct, acquire_or_enqueue_correct,
}
use webot_msg.Protection.History.{CalmHistory, start, calmly, Calm-Follows}

module _ (r : Redis) (codec : PayloadCodec) (g : RedisGuardConfig) (bot : Text) where
  module _ (alive : leb_ℤ (milliseconds g.queue_ttl) (pos 0) ≡ false) where
    -- The policy can follow a history with no conversation.
    pub CalmHistory-Quiet :
        {s t : Server r} {n : ℕ} (b : BotState)
        → Holds r g bot s b
        → b.count + n ≤ max_exact
        → CalmHistory r codec g bot s n t
        → (b' : BotState) × Quiet (limits g) b b' × Holds r g bot t b' × (b'.count ≤ b.count + n)
    CalmHistory-Quiet b h small start = (b, Quiet.start, h, omega arith)
    CalmHistory-Quiet b h small (calmly past st) =
        let (b1, q1, h1, c1) = CalmHistory-Quiet b h (omega arith) past in
        let (b2, q2, h2, c2) = Calm-Follows r codec g bot alive b1 h1 (omega arith) st in
        (b2, Quiet-trans q1 q2, h2, omega arith)

    put_is_no_send :
        (payload reason : Text) (b : BotState)
        → (ingress_for g (put (limits g) payload reason false b).0).outcome ≢ send_now
    unfolding put
    put_is_no_send payload reason b = ground arith

    -- Once the reminder of a locked bot is recorded, or the lock is not for the count, nothing is
    -- sent before the next conversation (the queue's expiry is at least a millisecond, and counts
    -- are exact), whatever else happened and whatever the network did: an
    -- answered reservation is refused for the reason of the lock, and answered ingress is settled
    -- by queueing or refusing the message, never by sending it.
    pub locked_bot_is_silent :
        (text reason : Text) (n : ℕ) (s t : Server r) (b : BotState)
        → Holds r g bot s b
        → IsSettled reason b
        → b.count + n ≤ max_exact
        → CalmHistory r codec g bot s n t
        → answers t.fates ≡ true
        → FitsInt64 (r.pttl (active_key g.key_prefix bot) t.db)
        → length (r.lrange (queue_key g.key_prefix bot) t.db) ≤ max_exact
        → ((reserve_normal_send r g bot t).0 ≡ ok (normal_rejected reason))
          × (i : Ingress) × ((acquire_or_enqueue r codec g bot text t).0 ≡ ok i)
          × (i.outcome ≢ send_now)
    locked_bot_is_silent text reason n s t b h settled small past live fits short =
        let (b', quiet, h', c) = CalmHistory-Quiet b h small past in
        let payload = codec.marshal text t.now_ms in
        let (refuses, enqueues) = settled_silent (limits g) reason payload settled quiet in
        let fw : FitsInt64 b'.window = rw (← h'.window_as) fits in
        let fq : length b'.queue ≤ max_exact = rw (← h'.queue_as) short in
        let a = reserve_normal_send_correct r g bot t b' live h' (omega arith) fw in
        let q =
          acquire_or_enqueue_correct r codec g bot text t b' live h' (omega arith) fq fw alive in
        (
          a.0 ∙ ap (λ x. ok (reservation_for g x.0)) refuses,
          _,
          q.0 ∙ ap (λ x. ok (ingress_for g x.0)) enqueues,
          put_is_no_send payload reason b',
        )

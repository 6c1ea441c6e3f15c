-- ===== src/Protection/RedisGuard/Conversation.antt =====
-- Reminders, conversations and the ends of the queue, as the methods of `RedisGuard` do them.
use webot_msg.Common.{
  suc, ◌≤◌, ◌≡◌, refl, ap, true, false, tail, head?, List, [], ◌∷◌, Text, codes, ok,
}
use webot_msg.Common.Int.{ℤ, pos, leb_ℤ}
use webot_msg.Strconv.{itoa}
use webot_msg.Redis.{Redis, max_exact, Response, status}
use webot_msg.Protection.Keys.{state_key, active_key, queue_key, keys_distinct}
use webot_msg.Protection.Policy.{BotState, reminded, activate}
use webot_msg.Protection.Scripts
use webot_msg.Protection.Refine.Writes.{pop-Represents}
use webot_msg.Protection.Refine.Sends.{record_reminder_send-Represents}
use webot_msg.Protection.Refine.Releases.{record_active_conversation-Represents}
use webot_msg.Protection.RedisGuard.{
  RedisGuardConfig, milliseconds, PayloadCodec, Server, run_script, evaluated, record_reminder_send,
  record_active_conversation, peek_queued, peeked, drop_front, reject_lost,
}
use webot_msg.Protection.RedisGuard.Answers.{answers, call_answered, drop_front-fates}
use webot_msg.Protection.RedisGuard.Correct.{Holds}

-- The entries of a queue that was filled with these messages, each a text and a time.
unfoldable pub marshalled : PayloadCodec → List (Text × ℤ) → List Text
marshalled codec [] = []
marshalled codec ((text, ms) ∷ waiting) = codec.marshal text ms ∷ marshalled codec waiting

module _ (r : Redis) (g : RedisGuardConfig) (bot : Text) where
  evaluated_ok :
      (p : Response × r.Db) (db : r.Db)
      → p ≡ (status (codes "OK"), db)
      → evaluated r p ≡ (ok (status (codes "OK")), db)
  evaluated_ok p db e = ap (evaluated r) e

  -- `RecordReminderSend`, if its command is answered and the count is exact, counts the reminder, and
  -- locks the bot with no reminder due.
  pub record_reminder_send_correct :
      (s : Server r) (b : BotState)
      → answers s.fates ≡ true
      → Holds r g bot s b
      → suc b.count ≤ max_exact
      → ((record_reminder_send r g bot s).0 ≡ ok tt)
        × Holds r g bot (record_reminder_send r g bot s).1 (reminded b)
  unfolding record_reminder_send run_script reject_lost
  record_reminder_send_correct s b live h small =
      let script = Scripts.record_reminder_send r (state_key g.key_prefix bot) (itoa s.now_ms) in
      let (db', e, kept) =
        record_reminder_send-Represents r _ _ _ (keys_distinct g.key_prefix bot) (itoa s.now_ms)
          s.db b h small in
      rw (call_answered r (λ db. evaluated r (script db)) s live, evaluated_ok (script s.db) db' e)
        (refl, kept)

  -- `RecordActiveConversation`, if its command is answered and the window is at least a millisecond,
  -- opens the bot with no messages sent and the whole window ahead; the queue stays.
  pub record_active_conversation_correct :
      (s : Server r) (b : BotState)
      → answers s.fates ≡ true
      → Holds r g bot s b
      → leb_ℤ (milliseconds g.active_window) (pos 0) ≡ false
      → ((record_active_conversation r g bot s).0 ≡ ok tt)
        × Holds r g bot
            (record_active_conversation r g bot s).1
            (activate (milliseconds g.active_window) b)
  unfolding record_active_conversation run_script reject_lost
  record_active_conversation_correct s b live h long =
      let script =
        Scripts.record_active_conversation r (state_key g.key_prefix bot)
          (active_key g.key_prefix bot) (itoa s.now_ms) (milliseconds g.active_window) in
      let (db', e, kept) =
        record_active_conversation-Represents r _ _ _ (keys_distinct g.key_prefix bot)
          (itoa s.now_ms) (milliseconds g.active_window) s.db b long h in
      rw (call_answered r (λ db. evaluated r (script db)) s live, evaluated_ok (script s.db) db' e)
        (refl, kept)

  module _ (codec : PayloadCodec) where
    peeked-marshalled :
        (waiting : List (Text × ℤ))
        → peeked r codec g (head? (marshalled codec waiting)) ≡ ok (head? waiting)
    unfolding peeked marshalled
    peeked-marshalled [] = refl
    peeked-marshalled ((text, ms) ∷ waiting) = simp (codec.unmarshal-marshal) refl

    tail_marshalled :
        (queue : List Text) (waiting : List (Text × ℤ))
        → queue ≡ marshalled codec waiting
        → tail queue ≡ marshalled codec (tail waiting)
    unfolding marshalled
    tail_marshalled queue [] e = ap tail e
    tail_marshalled queue ((text, ms) ∷ waiting) e = ap tail e

    -- What the method reports of a queue, and what it leaves.
    peek_lem :
        (s : Server r) (b : BotState) (waiting : List (Text × ℤ))
        → answers s.fates ≡ true
        → Holds r g bot s b
        → b.queue ≡ marshalled codec waiting
        → ((peek_queued r codec g bot s).0 ≡ ok (head? waiting))
          × ((peek_queued r codec g bot s).1.db ≡ s.db)
          × ((peek_queued r codec g bot s).1.fates ≡ tail s.fates)
    unfolding peek_queued reject_lost
    peek_lem s b waiting live h q =
        let read = λ (db : r.Db). ok (r.lfirst (queue_key g.key_prefix bot) db) in
        rw (call_answered r (λ db. (read db, db)) s live, r.lfirst-lrange, h.queue_as, q)
          (peeked-marshalled waiting, refl, refl)

    -- `DropFront`, if its command is answered, takes the oldest message off the queue and changes
    -- nothing else of the bot.
    pub drop_front_correct :
        (s : Server r) (b : BotState)
        → answers s.fates ≡ true
        → Holds r g bot s b
        → ((drop_front r codec g bot s).0 ≡ ok tt)
          × Holds r g bot (drop_front r codec g bot s).1 (record b { queue = tail b.queue })
    unfolding drop_front reject_lost
    drop_front_correct s b live h =
        rw (call_answered {0} r (λ db. (ok tt, r.lpop (queue_key g.key_prefix bot) db)) s live)
          (refl, pop-Represents r _ _ _ (keys_distinct g.key_prefix bot) s.db b h)

    -- `PeekQueued` on a queue of the payloads of some waiting messages reports the text and the time
    -- of the oldest of them, or no message and no error if none is waiting, and changes nothing in the
    -- database. `DropFront` and `PeekQueued` after it report the same of the messages behind the
    -- oldest. All three commands are answered.
    pub peek_queued_correct :
        (s : Server r) (b : BotState) (waiting : List (Text × ℤ))
        → answers s.fates ≡ true
        → answers (tail s.fates) ≡ true
        → answers (tail (tail s.fates)) ≡ true
        → Holds r g bot s b
        → b.queue ≡ marshalled codec waiting
        → let looked = peek_queued r codec g bot s in
          let taken = drop_front r codec g bot looked.1 in
          (looked.0 ≡ ok (head? waiting))
          × (looked.1.db ≡ s.db)
          × ((peek_queued r codec g bot taken.1).0 ≡ ok (head? (tail waiting)))
    peek_queued_correct s b waiting live live2 live3 h q =
        let (first, same, fates) = peek_lem s b waiting live h q in
        let looked = (peek_queued r codec g bot s).1 in
        let (popped, h') = drop_front_correct looked b (rw fates live2) (rw same h) in
        let (next, _, _) =
          peek_lem (drop_front r codec g bot looked).1 (record b { queue = tail b.queue })
            (tail waiting) (rw (drop_front-fates r g bot looked codec, fates) live3) h'
            (tail_marshalled b.queue waiting q) in
        (first, same, next)

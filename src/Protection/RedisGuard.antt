-- ===== src/Protection/RedisGuard.antt =====
-- internal/protection/redis_guard.go and queue.go: the methods of `RedisGuard` over a Redis server.
pub mod Answers
pub mod Correct
pub mod Conversation
pub mod Faults
pub mod Reporting
use webot_msg.Common.{
  ℕ, ◌≡◌, Bool, true, false, Option, none, some, List, [], ◌∷◌, if◌then◌else◌, Text, codes, text_eq,
  Error, rejection_by, failed, wrapped, outer, Result, ok, err, tail,
}
use webot_msg.Common.Int.{ℤ, pos, ◌-ℤ◌, ◌*ℤ◌, int64, quot, ltb_ℤ, leb_ℤ}
use webot_msg.Strconv.{itoa}
use webot_msg.Redis.{Redis, or_else, Item, Response, raised}
use webot_msg.Protection.Guard.{Decision, Reservation, Status, Ingress, Guard, QueueController}
use webot_msg.Protection.Keys.{state_key, active_key, queue_key}
use webot_msg.Protection.Policy.{Limits}
use webot_msg.Protection.Scripts
use webot_msg.Protection.Scripts.{frozen_field, reason_field, pending_field, count_field}
use webot_msg.Protection.Replies.{
  millisecond, clamp, parse_reservation, parse_decision, parse_ingress, parse_redis_int,
}

-- Durations are in nanoseconds.
pub record RedisGuardConfig : Type 0 where
  pub key_prefix : Text
  pub message_limit : ℤ
  pub message_warning_remaining : ℤ
  pub active_window : ℤ
  pub time_warning_before : ℤ
  pub queue_max_len : ℤ
  pub queue_ttl : ℤ

-- `NewRedisGuard`: a queue length or an expiry that is not positive has a default.
unfoldable pub new_redis_guard : RedisGuardConfig → RedisGuardConfig
new_redis_guard c = record c {
  queue_max_len = if leb_ℤ c.queue_max_len (pos 0) then pos 1000 else c.queue_max_len;
  queue_ttl = if leb_ℤ c.queue_ttl (pos 0) then c.active_window else c.queue_ttl;
}

unfoldable pub threshold : RedisGuardConfig → ℤ
threshold g = int64 (g.message_limit -ℤ g.message_warning_remaining)

-- `Duration.Milliseconds`
unfoldable pub milliseconds : ℤ → ℤ
milliseconds d = quot d millisecond

abbrev pub limits : RedisGuardConfig → Limits
limits g = record {
  threshold = threshold g;
  warn_ms = milliseconds g.time_warning_before;
  max_len = g.queue_max_len;
}

-- How encoding/json stores a queued message, which is not modelled: what it writes it reads back.
pub record PayloadCodec : Type 0 where
  pub marshal : Text → ℤ → Text
  pub unmarshal : Text → Option (Text × ℤ)
  pub unmarshal-marshal : (text : Text) (ms : ℤ) → unmarshal (marshal text ms) ≡ some (text, ms)

-- What becomes of a command: it is carried out and answered, or lost on the way there or on the way
-- back and reported with that error, or carried out, its answer lost, and tried again by the client,
-- which repeats lost commands by itself. A lost attempt that is repeated changes nothing, and has no
-- constructor.
pub data Delivery : Type 0 where
  answered : Delivery
  lost_request lost_reply : Error → Delivery
  tried_again : Delivery → Delivery

-- The database, the fate of the commands to come (answered, once the list ends), and the clock.
pub record Server (r : Redis) : Type 0 where
  pub db : r.Db
  pub fates : List Delivery
  pub now_ms : ℤ

abbrev pub first_fate : List Delivery → Delivery
first_fate [] = answered
first_fate (fate ∷ fates) = fate

module _ (r : Redis) where
  unfoldable pub deliver {ℓ} :
      {A : Type ℓ} → (r.Db → Result A × r.Db) → Delivery → r.Db → Result A × r.Db
  deliver command answered db = command db
  deliver command (lost_request e) db = (err e, db)
  deliver command (lost_reply e) db = (err e, (command db).1)
  deliver command (tried_again fate) db = deliver command fate (command db).1

  unfoldable pub call {ℓ} : {A : Type ℓ} → (r.Db → Result A × r.Db) → Server r → Result A × Server r
  unfolding deliver
  call command s =
      let (a, db) = deliver command (first_fate s.fates) s.db in
      (a, record s { db = db; fates = tail s.fates })

  -- A script that raises an error is answered with that error.
  abbrev pub evaluated : Response × r.Db → Result Response × r.Db
  evaluated (raised, db) = (err (failed (codes "script error")), db)
  evaluated (response, db) = (ok response, db)

  unfoldable pub run_script : (r.Db → Response × r.Db) → Server r → Result Response × Server r
  run_script script s = call (λ db. evaluated (script db)) s

  abbrev pub by_redis : Error → Error
  by_redis e = rejection_by (codes "redis") e

  abbrev pub as_rejection {ℓ} : {B : Type ℓ} → Result B → Result B
  as_rejection (ok b) = ok b
  as_rejection (err e) = err (by_redis e)

  -- A reply that is read, or else an error; either error becomes a rejection.
  unfoldable pub reject_errors {ℓ κ} :
      {A : Type ℓ} {B : Type κ} → (A → Result B) → Result A → Result B
  reject_errors f (err e) = err (by_redis e)
  reject_errors f (ok a) = as_rejection (f a)

  -- Only an error of the call becomes a rejection.
  unfoldable pub reject_lost {ℓ κ} :
      {A : Type ℓ} {B : Type κ} → (A → Result B) → Result A → Result B
  reject_lost f (err e) = err (by_redis e)
  reject_lost f (ok a) = f a

  abbrev pub done : Response → Result (Unit {0})
  done response = ok tt

module _ (r : Redis) (g : RedisGuardConfig) where
  unfoldable pub reserve_normal_send : Text → Server r → Result Reservation × Server r
  reserve_normal_send bot s =
      let (response, s') =
        run_script r
          (Scripts.reserve_normal_send r (state_key g.key_prefix bot) (active_key g.key_prefix bot)
            (threshold g) (milliseconds g.time_warning_before))
          s in
      (reject_errors r (parse_reservation (threshold g) g.time_warning_before) response, s')

  unfoldable pub release_normal_send : Text → Server r → Result (Unit {0}) × Server r
  release_normal_send bot s =
      let (response, s') =
        run_script r (Scripts.release_normal_send r (state_key g.key_prefix bot)) s in
      (reject_lost r (done r) response, s')

  unfoldable pub record_reminder_send : Text → Server r → Result (Unit {0}) × Server r
  record_reminder_send bot s =
      let (response, s') =
        run_script r (Scripts.record_reminder_send r (state_key g.key_prefix bot) (itoa s.now_ms))
          s in
      (reject_lost r (done r) response, s')

  unfoldable pub record_active_conversation : Text → Server r → Result (Unit {0}) × Server r
  record_active_conversation bot s =
      let (response, s') =
        run_script r
          (Scripts.record_active_conversation r (state_key g.key_prefix bot)
            (active_key g.key_prefix bot) (itoa s.now_ms) (milliseconds g.active_window))
          s in
      (reject_lost r (done r) response, s')

  unfoldable pub check_time_window : Text → Server r → Result Decision × Server r
  check_time_window bot s =
      let (response, s') =
        run_script r
          (Scripts.check_time_window r (state_key g.key_prefix bot) (active_key g.key_prefix bot)
            (milliseconds g.time_warning_before))
          s in
      (reject_errors r parse_decision response, s')

  -- The methods as a guard.
  unfoldable pub redis_guard : Guard (Server r)
  redis_guard = record {
    reserve_normal_send = reserve_normal_send;
    release_normal_send = release_normal_send;
    record_reminder_send = record_reminder_send;
    record_active_conversation = record_active_conversation;
    check_time_window = check_time_window;
  }

module _ (r : Redis) (codec : PayloadCodec) (g : RedisGuardConfig) where
  -- queue.go
  unfoldable pub acquire_or_enqueue : Text → Text → Server r → Result Ingress × Server r
  acquire_or_enqueue bot text s =
      let (response, s') =
        run_script r
          (Scripts.acquire_or_enqueue r (state_key g.key_prefix bot) (active_key g.key_prefix bot)
            (queue_key g.key_prefix bot) (threshold g) (milliseconds g.time_warning_before)
            (codec.marshal text s.now_ms) g.queue_max_len (milliseconds g.queue_ttl))
          s in
      (reject_lost r (parse_ingress (threshold g) g.time_warning_before) response, s')

  decoded : Option (Text × ℤ) → Result (Option (Text × ℤ))
  decoded none = err (wrapped (codes "decode queued payload") (failed (codes "invalid JSON")))
  decoded (some payload) = ok (some payload)

  unfoldable pub peeked : Option Text → Result (Option (Text × ℤ))
  unfolding decoded
  peeked none = ok none
  peeked (some value) = decoded (codec.unmarshal value)

  unfoldable pub peek_queued : Text → Server r → Result (Option (Text × ℤ)) × Server r
  peek_queued bot s =
      let (first, s') = call r (λ db. (ok (r.lfirst (queue_key g.key_prefix bot) db), db)) s in
      (reject_lost r peeked first, s')

  unfoldable pub drop_front : Text → Server r → Result (Unit {0}) × Server r
  drop_front bot s =
      let (popped, s') = call {0} r (λ db. (ok tt, r.lpop (queue_key g.key_prefix bot) db)) s in
      (reject_lost r (λ _. ok tt) popped, s')

  unfoldable pub queue_len : Text → Server r → Result ℕ × Server r
  queue_len bot s =
      let (n, s') = call r (λ db. (ok (r.llen (queue_key g.key_prefix bot) db), db)) s in
      (reject_lost r (λ n. ok n) n, s')

  unfoldable pub redis_queue : QueueController (Server r)
  redis_queue = record {
    acquire_or_enqueue = acquire_or_enqueue;
    peek_queued = peek_queued;
    drop_front = drop_front;
    queue_len = queue_len;
  }

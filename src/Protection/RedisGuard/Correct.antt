-- ===== src/Protection/RedisGuard/Correct.antt =====
-- A method of `RedisGuard` whose command is answered does what the policy says, and reports it.
use webot_msg.Common.{◌≤◌, ◌≡◌, refl, ap, true, false, Text, ok, length}
use webot_msg.Common.Int.{ℤ, pos, FitsInt64, leb_ℤ}
use webot_msg.Redis.{Redis, max_exact, Response}
use webot_msg.Protection.Keys.{state_key, active_key, queue_key, keys_distinct}
use webot_msg.Protection.Policy.{
  Lock, BotState, Limits, Ruling, sends, sends_then_reminds, rejects, reminds_only, enqueues,
  overflows, reminds, allows, reserve, release, reminded, activate, check_window, acquire,
  reserve_from, reserve_unlocked, count_one, check_from, check_unlocked, put,
}
use webot_msg.Protection.Scripts
use webot_msg.Protection.Policy
use webot_msg.Protection.Refine.Writes.{Distinct, Represents}
use webot_msg.Protection.Refine.Sends.{reserve_normal_send-Agrees, check_time_window-Agrees}
use webot_msg.Protection.Refine.Releases.{release_normal_send-Agrees}
use webot_msg.Protection.Refine.Ingress.{acquire_or_enqueue-Agrees}
use webot_msg.Protection.RedisGuard.Answers.{
  answers, call_answered, run_answered, reservation_for, parse_reservation-reply,
  reserve-IsReservation, decision_for, parse_decision-check, ingress_for, parse_ingress-reply,
  acquire-IsIngress,
}
use webot_msg.Protection.RedisGuard.{
  RedisGuardConfig, limits, threshold, milliseconds, PayloadCodec, Server, run_script, evaluated,
  reserve_normal_send, release_normal_send, check_time_window, acquire_or_enqueue, reject_errors,
  reject_lost,
}

module _ (r : Redis) (g : RedisGuardConfig) (bot : Text) where
  -- The database of a server holds the state of the bot.
  abbrev pub Holds : Server r → BotState → Type 0
  Holds s b =
      Represents r (state_key g.key_prefix bot) (active_key g.key_prefix bot)
        (queue_key g.key_prefix bot) s.db b

  abbrev keys :
      Distinct
        (state_key g.key_prefix bot)
        (active_key g.key_prefix bot)
        (queue_key g.key_prefix bot)
  keys = keys_distinct g.key_prefix bot

  abbrev reserve_script : r.Db → Response × r.Db
  reserve_script =
      Scripts.reserve_normal_send r (state_key g.key_prefix bot) (active_key g.key_prefix bot)
        (threshold g) (milliseconds g.time_warning_before)

  abbrev check_script : r.Db → Response × r.Db
  check_script =
      Scripts.check_time_window r (state_key g.key_prefix bot) (active_key g.key_prefix bot)
        (milliseconds g.time_warning_before)

  -- `ReserveNormalSend`, if its command is answered, its count is exact and its window fits 64 bits,
  -- answers what the policy rules, with the messages and the time that are left, and the database
  -- holds the policy's new state.
  pub reserve_normal_send_correct :
      (s : Server r) (b : BotState)
      → answers s.fates ≡ true
      → Holds s b
      → b.count ≤ max_exact
      → FitsInt64 b.window
      → ((reserve_normal_send r g bot s).0 ≡ ok (reservation_for g (reserve (limits g) b).0))
        × Holds (reserve_normal_send r g bot s).1 (reserve (limits g) b).1
  unfolding reserve_normal_send reject_errors
  reserve_normal_send_correct s b live h small fw =
      let a = reserve_normal_send-Agrees r _ _ _ keys (limits g) s.db b h small in
      let p = parse_reservation-reply g _ (reserve-IsReservation (limits g) b small fw) in
      rw (run_answered r reserve_script s (reserve (limits g) b).0 live a.0, p) (refl, a.1)

  -- `CheckTimeWindow`, if its command is answered, reports the policy's decision and leaves the
  -- policy's state.
  pub check_time_window_correct :
      (s : Server r) (b : BotState)
      → answers s.fates ≡ true
      → Holds s b
      → ((check_time_window r g bot s).0 ≡ ok (decision_for (Policy.check_window (limits g) b).0))
        × Holds (check_time_window r g bot s).1 (Policy.check_window (limits g) b).1
  unfolding check_time_window reject_errors
  check_time_window_correct s b live h =
      let a = check_time_window-Agrees r _ _ _ keys (limits g) s.db b h in
      let v = (Policy.check_window (limits g) b).0 in
      rw (run_answered r check_script s v live a.0, parse_decision-check (limits g) b) (refl, a.1)

module _ (r : Redis) (codec : PayloadCodec) (g : RedisGuardConfig) (bot text : Text) where
  abbrev payload : Server r → Text
  payload s = codec.marshal text s.now_ms

  abbrev ingress_script : Server r → r.Db → Response × r.Db
  ingress_script s =
      Scripts.acquire_or_enqueue r (state_key g.key_prefix bot) (active_key g.key_prefix bot)
        (queue_key g.key_prefix bot) (threshold g) (milliseconds g.time_warning_before)
        (codec.marshal text s.now_ms) g.queue_max_len (milliseconds g.queue_ttl)

  -- `AcquireOrEnqueue` reports what the policy rules on ingress and leaves the policy's state, if its
  -- command is answered, the queue's expiry is at least a millisecond, the count and the length of
  -- the queue are exact and the window fits 64 bits.
  pub acquire_or_enqueue_correct :
      (s : Server r) (b : BotState)
      → answers s.fates ≡ true
      → Holds r g bot s b
      → b.count ≤ max_exact
      → length b.queue ≤ max_exact
      → FitsInt64 b.window
      → leb_ℤ (milliseconds g.queue_ttl) (pos 0) ≡ false
      → let ruled = acquire (limits g) (codec.marshal text s.now_ms) b in
        ((acquire_or_enqueue r codec g bot text s).0 ≡ ok (ingress_for g ruled.0))
        × Holds r g bot (acquire_or_enqueue r codec g bot text s).1 ruled.1
  unfolding acquire_or_enqueue reject_lost
  acquire_or_enqueue_correct s b live h small short fw alive =
      let a =
        acquire_or_enqueue-Agrees r _ _ _ (keys_distinct g.key_prefix bot) (limits g) (payload s)
          (milliseconds g.queue_ttl) s.db b alive small h in
      let v = (acquire (limits g) (payload s) b).0 in
      let p = parse_ingress-reply g v (acquire-IsIngress (limits g) (payload s) b small short fw) in
      rw (run_answered r (ingress_script s) s v live a.0, p) (refl, a.1)

module _ (r : Redis) (g : RedisGuardConfig) (bot : Text) where
  abbrev release_script : r.Db → Response × r.Db
  release_script = Scripts.release_normal_send r (state_key g.key_prefix bot)

  evaluated_integer :
      (n : ℤ) (p : Response × r.Db)
      → p.0 ≡ Response.integer n
      → evaluated r p ≡ (ok (Response.integer n), p.1)
  evaluated_integer n (a, db) e = ap (λ a. evaluated r (a, db)) e

  -- `ReleaseNormalSend`, if its command is answered and the count is exact, succeeds and leaves the
  -- state that the policy's release leaves.
  pub release_normal_send_correct :
      (s : Server r) (b : BotState)
      → answers s.fates ≡ true
      → Holds r g bot s b
      → b.count ≤ max_exact
      → ((release_normal_send r g bot s).0 ≡ ok tt)
        × Holds r g bot (release_normal_send r g bot s).1 (Policy.release b)
  unfolding release_normal_send run_script reject_lost
  release_normal_send_correct s b live h small =
      let a = release_normal_send-Agrees r _ _ _ (keys_distinct g.key_prefix bot) s.db b h small in
      let e = evaluated_integer _ (release_script s.db) a.0 in
      rw (call_answered r (λ db. evaluated r (release_script db)) s live, e) (refl, a.1)

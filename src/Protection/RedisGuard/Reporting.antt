-- ===== src/Protection/RedisGuard/Reporting.antt =====
-- redis_guard.go, `ProtectionStatus`: what the console shows of a bot. Three commands, one after the
-- other.
use webot_msg.Common.{
  ℕ, ◌≡◌, refl, sym, ◌∙◌, ap, true, Option, none, some, [], if◌then◌else◌, Text, codes, text_eq,
  Result, ok, err, length,
}
use webot_msg.Common.Int.{ℤ, pos, ◌-ℤ◌, ◌*ℤ◌, int64, ltb_ℤ}
use webot_msg.Redis.{Redis, or_else}
use webot_msg.Protection.Guard.{Status}
use webot_msg.Protection.Keys.{state_key, active_key, queue_key}
use webot_msg.Protection.Policy.{BotState, is_locked, lock_due}
use webot_msg.Protection.Scripts.{
  frozen_field, reason_field, pending_field, count_field, yes_flag, is_set,
}
use webot_msg.Protection.Replies.{millisecond, clamp, parse_redis_int}
use webot_msg.Protection.RedisGuard.{
  RedisGuardConfig, PayloadCodec, Server, call, queue_len, threshold, by_redis, reject_lost,
}
use webot_msg.Protection.RedisGuard.Correct.{Holds}

-- `fmt.Sprint` of a value of HMGET.
abbrev pub sprint_value : Option Text → Text
sprint_value none = codes "<nil>"
sprint_value (some t) = t

-- The client turns a time to live into a duration, but keeps -1 and -2 as they are.
abbrev pub ttl_duration : ℤ → ℤ
ttl_duration n = if ltb_ℤ n (pos 0) then n else int64 (n *ℤ millisecond)

pub record StateFields : Type 0 where
  pub out_count : Option Text
  pub frozen : Option Text
  pub reason : Option Text
  pub reminder_pending : Option Text

module _ (r : Redis) (codec : PayloadCodec) (g : RedisGuardConfig) (bot : Text) where
  -- `HMGET state out_count frozen reason reminder_pending`
  abbrev state_fields : r.Db → StateFields
  state_fields db =
      let state = state_key g.key_prefix bot in
      record {
        out_count = r.hget state count_field db;
        frozen = r.hget state frozen_field db;
        reason = r.hget state reason_field db;
        reminder_pending = r.hget state pending_field db;
      }

  unfoldable pub status_of : StateFields → ℤ → ℕ → Status
  status_of values ttl queued_count =
      let out_count = parse_redis_int values.out_count in
      let ready = ltb_ℤ (pos 0) ttl in
      record {
        enabled = true;
        bot_id = bot;
        active_window_ready = ready;
        frozen = text_eq (sprint_value values.frozen) yes_flag;
        reason = sprint_value values.reason;
        out_count = out_count;
        message_limit = g.message_limit;
        warning_threshold = threshold g;
        messages_before_reminder = clamp (int64 (threshold g -ℤ out_count));
        active_window_remaining = if ready then ttl else pos 0;
        time_before_warning = if ready then clamp (int64 (ttl -ℤ g.time_warning_before)) else pos 0;
        reminder_pending = text_eq (sprint_value values.reminder_pending) yes_flag;
        queued_count = queued_count;
      }

  counted : StateFields → ℤ → Result ℕ × Server r → Result Status × Server r
  counted values ttl (err e, s) = (err e, s)
  counted values ttl (ok n, s) = (ok (status_of values ttl n), s)

  timed : StateFields → Result ℤ × Server r → Result Status × Server r
  unfolding counted
  timed values (err e, s) = (err (by_redis r e), s)
  timed values (ok ttl, s) = counted values (ttl_duration ttl) (queue_len r codec g bot s)

  fetched : Result StateFields × Server r → Result Status × Server r
  unfolding timed
  fetched (err e, s) = (err (by_redis r e), s)
  fetched (ok values, s) =
      timed values (call r (λ db. (ok (r.pttl (active_key g.key_prefix bot) db), db)) s)

  unfoldable pub protection_status : Server r → Result Status × Server r
  unfolding fetched
  protection_status s = fetched (call r (λ db. (ok (state_fields db), db)) s)

  pub call_reads :
      {A : Type 0} (s : Server r) (f : r.Db → A)
      → s.fates ≡ []
      → call r (λ db. (ok (f db), db)) s ≡ (ok (f s.db), s)
  unfolding call
  call_reads s f live =
      simp live (ap (λ fates. (ok (f s.db), record s { fates = fates })) (sym live))

  -- A missing value is not the flag, however it prints.
  flag_shown :
      (value : Option Text)
      → text_eq (sprint_value value) yes_flag ≡ text_eq (or_else value []) yes_flag
  unfolding text_eq
  flag_shown none = refl
  flag_shown (some t) = refl

  -- If the commands are answered, the status of a bot says whether it is locked, whether its
  -- reminder is due and how many messages wait, and asking for it changes nothing.
  pub protection_status_lem :
      (s : Server r) (b : BotState)
      → s.fates ≡ []
      → Holds r g bot s b
      → (status : Status) × (protection_status s ≡ (ok status, s))
        × (status.frozen ≡ is_locked b.lock)
        × (status.reminder_pending ≡ lock_due b.lock)
        × (status.queued_count ≡ length b.queue)
        × (status.active_window_ready ≡ ltb_ℤ (pos 0) (ttl_duration b.window))
  unfolding protection_status status_of queue_len reject_lost is_set
  protection_status_lem s b live h =
      let fields = state_fields s.db in
      let ttl = ttl_duration (r.pttl (active_key g.key_prefix bot) s.db) in
      let n = r.llen (queue_key g.key_prefix bot) s.db in
      (
        status_of fields ttl n,
        simp
            (
              call_reads s state_fields live,
              call_reads s (λ db. r.pttl (active_key g.key_prefix bot) db) live,
              call_reads s (λ db. r.llen (queue_key g.key_prefix bot) db) live,
            )
            refl,
        flag_shown fields.frozen ∙ h.frozen_as,
        flag_shown fields.reminder_pending ∙ h.pending_as,
        r.llen-lrange _ s.db ∙ ap length h.queue_as,
        ap (λ w. ltb_ℤ (pos 0) (ttl_duration w)) h.window_as,
      )

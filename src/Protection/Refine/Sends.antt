-- ===== src/Protection/Refine/Sends.antt =====
-- The scripts of redis_guard.go implement the policy.
use webot_msg.Common.{
  ℕ, suc, ◌≤◌, ◌≡◌, refl, true, false, some, [], ◌∷◌, arith, if◌then◌else◌, Text, codes, Bool-cases,
  inl, inr,
}
use webot_msg.Common.Int.{pos, leb_ℤ, ◌+ℤ◌}
use webot_msg.Redis.{Redis, max_exact, bulk, int, Response, array, status}
use webot_msg.Protection.Scripts.{
  count_field, no_window, count_send, out_count, reserve_normal_send, reason_time, reason_count,
  check_time_window, record_reminder_send, mark_reminder,
}
use webot_msg.Protection.Policy.{
  Lock, unlocked, locked, BotState, Limits, Ruling, sends, sends_then_reminds, rejects,
  reminds_only, enqueues, overflows, reminds, allows, count_one, reserve_unlocked, reserve_from,
  reserve, reminded, check_unlocked, check_from, check_window,
}
use webot_msg.Protection.Refine.Writes.{
  Distinct, Represents, freeze-Represents, count-Represents, mark-Represents,
}

-- How a script says what the policy rules.
abbrev pub reply : Ruling → Response
reply (sends n ttl) = array (bulk (codes "send") ∷ bulk [] ∷ int (pos n) ∷ int ttl ∷ [])
reply (sends_then_reminds n ttl) =
    array (bulk (codes "send_then_reminder") ∷ bulk reason_count ∷ int (pos n) ∷ int ttl ∷ [])
reply (rejects reason) = array (bulk (codes "reject") ∷ bulk reason ∷ [])
reply (reminds_only reason) = array (bulk (codes "reminder_only") ∷ bulk reason ∷ [])
reply (enqueues reason due n) = array (
    bulk (if due then codes "queued_reminder" else codes "queued") ∷ bulk reason ∷ int (pos n) ∷ [])
reply (overflows reason) = array (bulk (codes "full") ∷ bulk reason ∷ [])
reply (reminds reason) = array (bulk (codes "reminder") ∷ bulk reason ∷ [])
reply allows = array (bulk (codes "allow") ∷ bulk [] ∷ [])

module _ (r : Redis) (state active queue : Text) (d : Distinct state active queue) where
  open r use {Db, hget, hset, pttl, show, show-zero, tonumber, tonumber-show, hincrby-hset}

  -- An outcome of a script agrees with one of the policy.
  abbrev pub Agrees : Response × Db → Ruling × BotState → Type 0
  Agrees (a, db) (v, s) = (a ≡ reply v) × Represents r state active queue db s

  pub out_count_lem :
      (db : Db) (s : BotState)
      → Represents r state active queue db s
      → s.count ≤ max_exact
      → out_count r state db ≡ some (pos s.count)
  unfolding out_count
  out_count_lem db s h b = rw (h.count_as, out_count) (tonumber-show s.count b)

  add_one : (n : ℕ) → pos n +ℤ pos 1 ≡ pos (suc n)
  unfolding ◌+ℤ◌
  add_one n = ground arith

  pub count_send-Agrees :
      (l : Limits) (db : Db) (s : BotState)
      → Represents r state active queue db s
      → s.count ≤ max_exact
      → Agrees (count_send r state l.threshold s.window (out_count r state db) db) (count_one l s)
  unfolding count_send count_one
  count_send-Agrees l db s h b =
      rw (out_count_lem db s h b, add_one s.count)
        (elim (Bool-cases (leb_ℤ l.threshold (pos (suc s.count)))) [
          | inl reached ↦ rw reached (
            refl,
            freeze-Represents r state active queue d reason_count true _ _
                (count-Represents r state active queue d (suc s.count) db s h),
          )
          | inr below ↦
              rw below (refl, count-Represents r state active queue d (suc s.count) db s h)
        ])

  reserve_open-Agrees :
      (l : Limits) (db : Db) (s : BotState)
      → Represents r state active queue db s
      → s.count ≤ max_exact
      → s.lock ≡ unlocked
      → Agrees (reserve_normal_send r state active l.threshold l.warn_ms db) (reserve_unlocked l s)
  unfolding reserve_normal_send reserve_unlocked
  reserve_open-Agrees l db s h b e =
      simp (h.frozen_as, h.window_as, e)
        (elim (Bool-cases (no_window s.window)) [
          | inl gone ↦
              simp gone (refl, freeze-Represents r state active queue d reason_time false db s h)
          | inr here ↦ elim (Bool-cases (leb_ℤ s.window l.warn_ms)) [
            | inl late ↦
                simp (here, late)
                  (refl, freeze-Represents r state active queue d reason_time true db s h)
            | inr early ↦ simp (here, early) (count_send-Agrees l db s h b)
          ]
        ])

  reserve_from-Agrees :
      (k : Lock) (l : Limits) (db : Db) (s : BotState)
      → Represents r state active queue db s
      → s.count ≤ max_exact
      → s.lock ≡ k
      → Agrees (reserve_normal_send r state active l.threshold l.warn_ms db) (reserve_from k l s)
  unfolding reserve_normal_send reserve_from
  reserve_from-Agrees unlocked l db s h b e = reserve_open-Agrees l db s h b e
  reserve_from-Agrees (locked reason due) l db s h b e =
      simp (h.frozen_as, h.reason_as, e) (refl, h)

  -- Reserving a send: the script replies as the policy rules, and represents its new state.
  pub reserve_normal_send-Agrees :
      (l : Limits) (db : Db) (s : BotState)
      → Represents r state active queue db s
      → s.count ≤ max_exact
      → Agrees (reserve_normal_send r state active l.threshold l.warn_ms db) (reserve l s)
  unfolding reserve
  reserve_normal_send-Agrees l db s h b = reserve_from-Agrees s.lock l db s h b refl

  check_from-Agrees :
      (k : Lock) (l : Limits) (db : Db) (s : BotState)
      → Represents r state active queue db s
      → s.lock ≡ k
      → Agrees (check_time_window r state active l.warn_ms db) (check_from k l s)
  unfolding check_time_window check_from check_unlocked
  check_from-Agrees unlocked l db s h e =
      simp (h.frozen_as, h.window_as, e)
        (elim (Bool-cases (no_window s.window)) [
          | inl gone ↦ simp gone (refl, h)
          | inr here ↦ elim (Bool-cases (leb_ℤ s.window l.warn_ms)) [
            | inl late ↦
                simp (here, late)
                  (refl, freeze-Represents r state active queue d reason_time true db s h)
            | inr early ↦ simp (here, early) (refl, h)
          ]
        ])
  check_from-Agrees (locked reason due) l db s h e = simp (h.frozen_as, h.reason_as, e) (refl, h)

  -- Checking the time window agrees with the policy.
  pub check_time_window-Agrees :
      (l : Limits) (db : Db) (s : BotState)
      → Represents r state active queue db s
      → Agrees (check_time_window r state active l.warn_ms db) (check_window l s)
  unfolding check_window
  check_time_window-Agrees l db s h = check_from-Agrees s.lock l db s h refl

  -- A reminder that was sent is recorded as the policy says.
  pub record_reminder_send-Represents :
      (now_ms : Text) (db : Db) (s : BotState)
      → Represents r state active queue db s
      → suc s.count ≤ max_exact
      → (db' : Db) × (record_reminder_send r state now_ms db ≡ (status (codes "OK"), db'))
        × Represents r state active queue db' (reminded s)
  unfolding record_reminder_send mark_reminder reminded
  record_reminder_send-Represents now_ms db s h b = (
    _,
    rw (
        hincrby-hset state count_field (pos 1) s.count (suc s.count) db (rw show-zero h.count_as)
          (add_one s.count) (omega arith) b),
    mark-Represents r state active queue d now_ms _ _
        (count-Represents r state active queue d (suc s.count) db s h),
  )

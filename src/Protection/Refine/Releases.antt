-- ===== src/Protection/Refine/Releases.antt =====
-- The release of a reservation, and the start of a conversation, implement the policy.
use webot_msg.Common.{
  ℕ, suc, ◌-◌, ◌≤◌, ◌≡◌, refl, subst, ap, ◌∙◌, zero, true, false, ◌&&◌, some, [], arith, Text,
  text_eq, codes, Bool-cases, inl, inr,
}
use webot_msg.Common.Int.{ℤ, pos, negsuc, leb_ℤ, ltb_ℤ, ◌+ℤ◌}
use webot_msg.Redis.{Redis, or_else, max_exact, Response, integer, status}
use webot_msg.Protection.Scripts.{
  yes_flag, is_set, reason_of, reset_state, pending_field, count_field, frozen_field, reason_field,
  unfreeze_count, release_incremented, release_counted, release_normal_send, reason_count, started,
  record_active_conversation,
}
use webot_msg.Protection.Policy.{Lock, unlocked, locked, BotState, release_lock, release, activate}
use webot_msg.Protection.Refine.Writes.{
  Distinct, Represents, count-Represents, unlock-Represents, reset-Represents,
}
use webot_msg.Protection.Refine.Sends.{out_count_lem}

module _ (r : Redis) (state active queue : Text) (d : Distinct state active queue) where
  open r use {Db, hget, hset, pttl, show, show-zero, hincrby-hset, set_px_done, set_px_refused}

  -- What a release leaves: the count as its reply, and the state of the bot.
  abbrev Released : Response × Db → ℤ → BotState → Type 0
  Released (a, db) n s = (a ≡ integer n) × Represents r state active queue db s

  no_reason : text_eq [] reason_count ≡ false
  unfolding text_eq
  no_reason = refl

  relock :
      {k : Lock} (db : Db) (s : BotState)
      → s.lock ≡ k
      → Represents r state active queue db s
      → Represents r state active queue db (record s { lock = k })
  relock db s e h = subst (λ k. Represents r state active queue db (record s { lock = k })) e h

  unfreeze_from :
      (k : Lock) (n : ℤ) (db : Db) (s : BotState)
      → Represents r state active queue db s
      → s.lock ≡ k
      → Released (unfreeze_count r state n db) n (record s { lock = release_lock k })
  unfolding unfreeze_count release_lock
  unfreeze_from unlocked n db s h e = simp (h.reason_as, e, no_reason) (refl, relock db s e h)
  unfreeze_from (locked reason due) n db s h e =
      elim (Bool-cases (text_eq reason reason_count && due)) [
        | inl own ↦
            simp (h.reason_as, h.pending_as, e, own)
              (refl, unlock-Represents r state active queue d db s h)
        | inr other ↦ simp (h.reason_as, h.pending_as, e, other) (refl, relock db s e h)
      ]

  sub_one : (n : ℕ) → pos (suc n) +ℤ negsuc 0 ≡ pos n
  unfolding ◌+ℤ◌
  sub_one n = ground arith

  release_from :
      (c : ℕ) (db : Db) (s : BotState)
      → Represents r state active queue db s
      → s.count ≡ c
      → c ≤ max_exact
      → Released
          (release_counted r state (some (pos c)) db)
          (pos (c - 1))
          (record s { lock = release_lock s.lock; count = c - 1 })
  unfolding release_counted release_incremented
  release_from zero db s h e b =
      let u = unfreeze_from s.lock (pos 0) db s h refl in
      (
        u.0,
        subst
            (λ c.
              Represents r state active queue (unfreeze_count r state (pos 0) db).1
                (record s { lock = release_lock s.lock; count = c }))
            e u.1,
      )
  release_from (suc m) db s h e b =
      let taken = record s { count = m } in
      let db' = hset state count_field (show (pos m)) db in
      let positive : ltb_ℤ (pos 0) (pos (suc m)) ≡ true = ground arith in
      let stored : or_else (hget state count_field db) (show (pos 0)) ≡ show (pos (suc m)) =
        rw show-zero (h.count_as ∙ ap (λ c. show (pos c)) e) in
      let less : suc m - 1 ≡ m = omega arith in
      rw
        (
          positive,
          hincrby-hset state count_field (negsuc 0) (suc m) m db stored (sub_one m) b (omega arith),
          less,
        )
        (unfreeze_from s.lock (pos m) db' taken (count-Represents r state active queue d m db s h)
          refl)

  -- A release takes one message off the count, and the lock with it where that message caused it.
  pub release_normal_send-Agrees :
      (db : Db) (s : BotState)
      → Represents r state active queue db s
      → s.count ≤ max_exact
      → Released (release_normal_send r state db) (pos (s.count - 1)) (release s)
  unfolding release_normal_send release
  release_normal_send-Agrees db s h b =
      rw (out_count_lem r state active queue d db s h b) (release_from s.count db s h refl b)

  -- A conversation with a positive window starts over: no lock, no messages, the whole window.
  pub record_active_conversation-Represents :
      (now_ms : Text) (window_ms : ℤ) (db : Db) (s : BotState)
      → leb_ℤ window_ms (pos 0) ≡ false
      → Represents r state active queue db s
      → (db' : Db) × (record_active_conversation r state active now_ms window_ms db
          ≡ (status (codes "OK"), db'))
        × Represents r state active queue db' (activate window_ms s)
  unfolding record_active_conversation activate started is_set reason_of
  record_active_conversation-Represents now_ms window_ms db s long h =
      let reset = reset_state r state now_ms db in
      let z = reset-Represents r state active queue d now_ms db s h in
      let w = set_px_done active yes_flag window_ms reset long in
      (
        w.0,
        rw w.1,
        record {
          frozen_as = rw (w.4 state frozen_field d.active_state, is_set) z.frozen_as;
          reason_as = rw (w.4 state reason_field d.active_state, reason_of) z.reason_as;
          pending_as = rw (w.4 state pending_field d.active_state, is_set) z.pending_as;
          count_as = rw (w.4 state count_field d.active_state) z.count_as;
          window_as = w.2;
          queue_as = rw (w.5 queue d.active_queue) z.queue_as;
        },
      )

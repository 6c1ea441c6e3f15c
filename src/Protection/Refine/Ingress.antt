-- ===== src/Protection/Refine/Ingress.antt =====
-- The ingress script of queue.go, with its queue, implements the policy.
use webot_msg.Common.{
  suc, ◌≤◌, ◌≡◌, refl, ◌∙◌, Bool, true, false, ◌||◌, List, [], ◌∷◌, ◌++◌, arith, if◌then◌else◌,
  Text, text_eq, codes, Bool-cases, inl, inr, length, length-append, ltb,
}
use webot_msg.Common.Int.{ℤ, pos, leb_ℤ}
use webot_msg.Redis.{Redis, max_exact}
use webot_msg.Protection.Scripts.{yes_flag, no_window, reason_time, enqueue, acquire_or_enqueue}
use webot_msg.Protection.Policy.{is_locked, lock_reason, BotState, Limits, put, acquire}
use webot_msg.Protection.Refine.Writes.{
  Distinct, Represents, flag, freeze-Represents, push-Represents,
}
use webot_msg.Protection.Refine.Sends.{Agrees, count_send-Agrees}

module _ (r : Redis) (state active queue : Text) (d : Distinct state active queue) where
  open r use {Db, pttl, llen, llen-lrange, rpush, pexpire}

  tag_lem :
      (due : Bool)
      → (if text_eq (flag due) yes_flag then codes "queued_reminder" else codes "queued")
        ≡ (if due then codes "queued_reminder" else codes "queued")
  unfolding text_eq
  tag_lem true = refl
  tag_lem false = refl

  llen_lem :
      (db : Db) (s : BotState)
      → Represents r state active queue db s
      → llen queue db ≡ length s.queue
  llen_lem db s h = rw (llen-lrange, h.queue_as)

  length_snoc : (xs : List Text) (x : Text) → length (xs ++ x ∷ []) ≡ suc (length xs)
  length_snoc xs x = omega (arith, length-append xs (x ∷ []))

  pub enqueue-Agrees :
      (l : Limits) (payload reason : Text) (due : Bool) (ttl_ms : ℤ) (db : Db) (s : BotState)
      → leb_ℤ ttl_ms (pos 0) ≡ false
      → Represents r state active queue db s
      → Agrees r state active queue d
          (enqueue r queue payload l.max_len ttl_ms reason (flag due) db)
          (put l payload reason due s)
  unfolding enqueue put
  enqueue-Agrees l payload reason due ttl_ms db s alive h =
      let stored = push-Represents r state active queue d payload ttl_ms db s alive h in
      let grown =
        llen_lem (pexpire queue ttl_ms (rpush queue payload db))
          (record s { queue = s.queue ++ payload ∷ [] }) stored
        ∙ length_snoc s.queue payload in
      elim (Bool-cases (leb_ℤ l.max_len (pos (length s.queue)))) [
        | inl full ↦ simp (llen_lem db s h, full) (refl, h)
        | inr room ↦ simp (llen_lem db s h, room, grown, tag_lem due) (refl, stored)
      ]

  -- Ingress: a message is sent, queued behind the others, or refused, as the policy rules.
  pub acquire_or_enqueue-Agrees :
      (l : Limits) (payload : Text) (ttl_ms : ℤ) (db : Db) (s : BotState)
      → leb_ℤ ttl_ms (pos 0) ≡ false
      → s.count ≤ max_exact
      → Represents r state active queue db s
      → Agrees r state active queue d
          (acquire_or_enqueue r state active queue l.threshold l.warn_ms payload l.max_len ttl_ms
            db)
          (acquire l payload s)
  unfolding acquire_or_enqueue acquire
  acquire_or_enqueue-Agrees l payload ttl_ms db s alive b h =
      simp (h.frozen_as, llen_lem db s h, h.window_as, h.reason_as)
        (elim (Bool-cases (is_locked s.lock || ltb 0 (length s.queue))) [
          | inl busy ↦
              simp busy (enqueue-Agrees l payload (lock_reason s.lock) false ttl_ms db s alive h)
          | inr free ↦ elim (Bool-cases (no_window s.window)) [
            | inl gone ↦
                simp (free, gone)
                  (enqueue-Agrees l payload reason_time false ttl_ms _ _ alive
                    (freeze-Represents r state active queue d reason_time false db s h))
            | inr here ↦ elim (Bool-cases (leb_ℤ s.window l.warn_ms)) [
              | inl late ↦
                  simp (free, here, late)
                    (enqueue-Agrees l payload reason_time true ttl_ms _ _ alive
                      (freeze-Represents r state active queue d reason_time true db s h))
              | inr early ↦
                  simp (free, here, early) (count_send-Agrees r state active queue d l db s h b)
            ]
          ]
        ])

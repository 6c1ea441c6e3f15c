-- ===== src/Protection/Refine/Writes.antt =====
-- How the state hash represents a bot, and what the writes of the scripts do to it.
use webot_msg.Common.{
  ℕ, ◌≡◌, refl, sym, tail, Bool, true, false, [], ◌∷◌, ◌++◌, Text, text_eq, text_eq_refl,
}
use webot_msg.Common.Int.{ℤ, pos, leb_ℤ}
use webot_msg.Redis.{Redis, or_else}
use webot_msg.Protection.Scripts.{
  yes_flag, no_flag, frozen_field, reason_field, pending_field, count_field, is_set, reason_of,
  freeze, reset_state, sent_ms_field,
}
use webot_msg.Protection.Policy.{unlocked, locked, is_locked, lock_reason, lock_due, BotState}

-- The three keys of a bot differ.
pub record Distinct (state active queue : Text) : Type 0 where
  pub state_active : text_eq state active ≡ false
  pub state_queue : text_eq state queue ≡ false
  pub active_state : text_eq active state ≡ false
  pub active_queue : text_eq active queue ≡ false
  pub queue_state : text_eq queue state ≡ false
  pub queue_active : text_eq queue active ≡ false

module _ (r : Redis) (state active queue : Text) where
  open r use {Db, hget, hset, pttl, lrange, show, hget-hset, pttl-hset, lrange-hset}

  pub record Represents (db : Db) (s : BotState) : Type 0 where
    pub frozen_as : is_set r state frozen_field db ≡ is_locked s.lock
    pub reason_as : reason_of r state db ≡ lock_reason s.lock
    pub pending_as : is_set r state pending_field db ≡ lock_due s.lock
    pub count_as : or_else (hget state count_field db) no_flag ≡ show (pos s.count)
    pub window_as : pttl active db ≡ s.window
    pub queue_as : lrange queue db ≡ s.queue

abbrev pub flag : Bool → Text
flag true = yes_flag
flag false = no_flag

flag_read : (due : Bool) → text_eq (flag due) yes_flag ≡ due
unfolding text_eq
flag_read true = refl
flag_read false = refl

module _ (r : Redis) (state active queue : Text) (d : Distinct state active queue) where
  open r use {
    Db, hget, hset, pttl, lrange, show, rpush, pexpire, hget-hset, pttl-hset, lrange-hset,
    hget-rpush, pttl-rpush, lrange-rpush, hget-pexpire, pttl-pexpire, lrange-pexpire, show-zero,
    lpop, hget-lpop, pttl-lpop, lrange-lpop,
  }

  pub freeze-Represents :
      (reason : Text) (due : Bool) (db : Db) (s : BotState)
      → Represents r state active queue db s
      → Represents r state active queue
          (freeze r state reason (flag due) db)
          (record s { lock = locked reason due })
  unfolding freeze is_set reason_of text_eq
  freeze-Represents reason due db s h = record {
    frozen_as = simp (hget-hset, text_eq_refl);
    reason_as = simp (hget-hset, text_eq_refl);
    pending_as = simp (hget-hset, text_eq_refl) (flag_read due);
    count_as = simp (hget-hset, text_eq_refl) h.count_as;
    window_as = simp (pttl-hset, d.state_active) h.window_as;
    queue_as = simp (lrange-hset, d.state_queue) h.queue_as;
  }

  pub count-Represents :
      (n : ℕ) (db : Db) (s : BotState)
      → Represents r state active queue db s
      → Represents r state active queue
          (hset state count_field (show (pos n)) db)
          (record s { count = n })
  unfolding is_set reason_of text_eq
  count-Represents n db s h = record {
    frozen_as = simp (hget-hset, text_eq_refl) h.frozen_as;
    reason_as = simp (hget-hset, text_eq_refl) h.reason_as;
    pending_as = simp (hget-hset, text_eq_refl) h.pending_as;
    count_as = simp (hget-hset, text_eq_refl);
    window_as = simp (pttl-hset, d.state_active) h.window_as;
    queue_as = simp (lrange-hset, d.state_queue) h.queue_as;
  }

  -- The HSET of a release that takes a lock back.
  pub unlock-Represents :
      (db : Db) (s : BotState)
      → Represents r state active queue db s
      → Represents r state active queue
          (hset state pending_field no_flag
            (hset state reason_field [] (hset state frozen_field no_flag db)))
          (record s { lock = unlocked })
  unfolding is_set reason_of text_eq
  unlock-Represents db s h = record {
    frozen_as = simp (hget-hset, text_eq_refl);
    reason_as = simp (hget-hset, text_eq_refl);
    pending_as = simp (hget-hset, text_eq_refl);
    count_as = simp (hget-hset, text_eq_refl) h.count_as;
    window_as = simp (pttl-hset, d.state_active) h.window_as;
    queue_as = simp (lrange-hset, d.state_queue) h.queue_as;
  }

  -- The HSET that follows a reminder keeps the reason.
  pub mark-Represents :
      (now_ms : Text) (db : Db) (s : BotState)
      → Represents r state active queue db s
      → Represents r state active queue
          (hset state sent_ms_field now_ms
            (hset state pending_field no_flag (hset state frozen_field yes_flag db)))
          (record s { lock = locked (lock_reason s.lock) false })
  unfolding is_set reason_of text_eq
  mark-Represents now_ms db s h = record {
    frozen_as = simp (hget-hset, text_eq_refl);
    reason_as = simp (hget-hset, text_eq_refl) h.reason_as;
    pending_as = simp (hget-hset, text_eq_refl);
    count_as = simp (hget-hset, text_eq_refl) h.count_as;
    window_as = simp (pttl-hset, d.state_active) h.window_as;
    queue_as = simp (lrange-hset, d.state_queue) h.queue_as;
  }

  pub reset-Represents :
      (now_ms : Text) (db : Db) (s : BotState)
      → Represents r state active queue db s
      → Represents r state active queue
          (reset_state r state now_ms db)
          (record s { lock = unlocked; count = 0 })
  unfolding reset_state is_set reason_of text_eq
  reset-Represents now_ms db s h = record {
    frozen_as = simp (hget-hset, text_eq_refl);
    reason_as = simp (hget-hset, text_eq_refl);
    pending_as = simp (hget-hset, text_eq_refl);
    count_as = simp (hget-hset, text_eq_refl) (sym show-zero);
    window_as = simp (pttl-hset, d.state_active) h.window_as;
    queue_as = simp (lrange-hset, d.state_queue) h.queue_as;
  }

  -- RPUSH and PEXPIRE with a positive expiry.
  pub push-Represents :
      (payload : Text) (ttl_ms : ℤ) (db : Db) (s : BotState)
      → leb_ℤ ttl_ms (pos 0) ≡ false
      → Represents r state active queue db s
      → Represents r state active queue
          (pexpire queue ttl_ms (rpush queue payload db))
          (record s { queue = s.queue ++ payload ∷ [] })
  unfolding is_set reason_of
  push-Represents payload ttl_ms db s alive h = record {
    frozen_as = simp (hget-pexpire, hget-rpush, d.queue_state) h.frozen_as;
    reason_as = simp (hget-pexpire, hget-rpush, d.queue_state) h.reason_as;
    pending_as = simp (hget-pexpire, hget-rpush, d.queue_state) h.pending_as;
    count_as = simp (hget-pexpire, hget-rpush, d.queue_state) h.count_as;
    window_as = simp (pttl-pexpire, pttl-rpush, d.queue_active) h.window_as;
    queue_as = simp (lrange-pexpire, alive, lrange-rpush, h.queue_as);
  }

  pub pop-Represents :
      (db : Db) (s : BotState)
      → Represents r state active queue db s
      → Represents r state active queue (lpop queue db) (record s { queue = tail s.queue })
  unfolding is_set reason_of
  pop-Represents db s h = record {
    frozen_as = simp (hget-lpop, d.queue_state) h.frozen_as;
    reason_as = simp (hget-lpop, d.queue_state) h.reason_as;
    pending_as = simp (hget-lpop, d.queue_state) h.pending_as;
    count_as = simp (hget-lpop, d.queue_state) h.count_as;
    window_as = simp (pttl-lpop, d.queue_active) h.window_as;
    queue_as = simp (lrange-lpop, h.queue_as);
  }

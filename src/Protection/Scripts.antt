-- ===== src/Protection/Scripts.antt =====
-- The Lua scripts of internal/protection/redis_guard.go and queue.go. Redis runs a script as one
-- step, with the clock standing still. The numbers of ARGV are passed as numbers.
use webot_msg.Common.{
  Bool, ◌||◌, ◌&&◌, Option, none, some, [], ◌∷◌, ltb, if◌then◌else◌, Text, codes, text_eq,
}
use webot_msg.Common.Int.{ℤ, pos, negsuc, ◌+ℤ◌, leb_ℤ, ltb_ℤ, eqb_ℤ}
use webot_msg.Redis.{Redis, or_else, bulk, int, Response, array, status, integer, raised}

-- The values that the scripts put into the state hash, and its fields.
abbrev pub yes_flag : Text
yes_flag = codes "1"

abbrev pub no_flag : Text
no_flag = codes "0"

abbrev pub frozen_field : Text
frozen_field = codes "frozen"

abbrev pub reason_field : Text
reason_field = codes "reason"

abbrev pub pending_field : Text
pending_field = codes "reminder_pending"

abbrev pub count_field : Text
count_field = codes "out_count"

abbrev pub sent_ms_field : Text
sent_ms_field = codes "reminder_sent_ms"

abbrev pub active_ms_field : Text
active_ms_field = codes "last_active_ms"

abbrev pub reason_time : Text
reason_time = codes "time"

abbrev pub reason_count : Text
reason_count = codes "count"

-- PTTL says -2 for a missing key and -1 for one that never expires.
unfoldable pub no_window : ℤ → Bool
no_window ttl = eqb_ℤ ttl (negsuc 1) || eqb_ℤ ttl (negsuc 0)

module _ (r : Redis) where
  open r use {Db, hget, hset, hincrby, pttl, set_px, llen, rpush, pexpire, show, tonumber}

  -- `redis.call("HGET", …) == "1"`: a missing field is `false` in Lua.
  unfoldable pub is_set : Text → Text → Db → Bool
  is_set key field db = text_eq (or_else (hget key field db) []) yes_flag

  -- `redis.call("HGET", state, "reason") or ""`
  unfoldable pub reason_of : Text → Db → Text
  reason_of state db = or_else (hget state reason_field db) []

  -- `redis.call("HSET", state, "frozen", "1", "reason", …, "reminder_pending", …)`
  unfoldable pub freeze : Text → Text → Text → Db → Db
  freeze state reason pending db =
      hset state pending_field pending
        (hset state reason_field reason (hset state frozen_field yes_flag db))

  -- `tonumber(redis.call("HGET", state, "out_count") or "0")`
  unfoldable pub out_count : Text → Db → Option ℤ
  out_count state db = tonumber (or_else (hget state count_field db) no_flag)

  -- From `count = count + 1` to the end; arithmetic on nil raises an error.
  unfoldable pub count_send : Text → ℤ → ℤ → Option ℤ → Db → Response × Db
  count_send state threshold ttl none db = (raised, db)
  count_send state threshold ttl (some old) db =
      let count = old +ℤ pos 1 in
      let db' = hset state count_field (show count) db in
      if leb_ℤ threshold count
      then (
        array (bulk (codes "send_then_reminder") ∷ bulk reason_count ∷ int count ∷ int ttl ∷ []),
        freeze state reason_count yes_flag db',
      )
      else (array (bulk (codes "send") ∷ bulk [] ∷ int count ∷ int ttl ∷ []), db')

  unfoldable pub reserve_normal_send : Text → Text → ℤ → ℤ → Db → Response × Db
  reserve_normal_send state active threshold warn_ms db =
      if is_set state frozen_field db
      then (array (bulk (codes "reject") ∷ bulk (reason_of state db) ∷ []), db)
      else let ttl = pttl active db in
        if no_window ttl
        then (
          array (bulk (codes "reject") ∷ bulk reason_time ∷ []),
          freeze state reason_time no_flag db,
        )
        else if leb_ℤ ttl warn_ms
        then (
          array (bulk (codes "reminder_only") ∷ bulk reason_time ∷ []),
          freeze state reason_time yes_flag db,
        )
        else count_send state threshold ttl (out_count state db) db

  -- The second half of the release: a freeze that this count caused is taken back.
  unfoldable pub unfreeze_count : Text → ℤ → Db → Response × Db
  unfreeze_count state count db =
      if text_eq (reason_of state db) reason_count && is_set state pending_field db
      then (
        integer count,
        hset state pending_field no_flag
            (hset state reason_field [] (hset state frozen_field no_flag db)),
      )
      else (integer count, db)

  unfoldable pub release_incremented : Text → Db → Option (ℤ × Db) → Response × Db
  release_incremented state db none = (raised, db)
  release_incremented state db (some (count, db')) = unfreeze_count state count db'

  unfoldable pub release_counted : Text → Option ℤ → Db → Response × Db
  release_counted state none db = (raised, db)
  release_counted state (some count) db =
      if ltb_ℤ (pos 0) count
      then release_incremented state db (hincrby state count_field (negsuc 0) db)
      else unfreeze_count state count db

  unfoldable pub release_normal_send : Text → Db → Response × Db
  release_normal_send state db = release_counted state (out_count state db) db

  unfoldable pub check_time_window : Text → Text → ℤ → Db → Response × Db
  check_time_window state active warn_ms db =
      if is_set state frozen_field db
      then (array (bulk (codes "reject") ∷ bulk (reason_of state db) ∷ []), db)
      else let ttl = pttl active db in
        if no_window ttl
        then (array (bulk (codes "reject") ∷ bulk reason_time ∷ []), db)
        else if leb_ℤ ttl warn_ms
        then (
          array (bulk (codes "reminder") ∷ bulk reason_time ∷ []),
          freeze state reason_time yes_flag db,
        )
        else (array (bulk (codes "allow") ∷ bulk [] ∷ []), db)

  unfoldable pub mark_reminder : Text → Text → Db → Option (ℤ × Db) → Response × Db
  mark_reminder state now_ms db none = (raised, db)
  mark_reminder state now_ms db (some (count, db')) = (
    status (codes "OK"),
    hset state sent_ms_field now_ms
        (hset state pending_field no_flag (hset state frozen_field yes_flag db')),
  )

  unfoldable pub record_reminder_send : Text → Text → Db → Response × Db
  record_reminder_send state now_ms db =
      mark_reminder state now_ms db (hincrby state count_field (pos 1) db)

  -- The five fields of the HSET that starts a new conversation.
  unfoldable pub reset_state : Text → Text → Db → Db
  reset_state state now_ms db = hset state active_ms_field now_ms (
      hset state pending_field no_flag (
        hset state reason_field []
          (hset state frozen_field no_flag (hset state count_field no_flag db))))

  unfoldable pub started : Db → Option Db → Response × Db
  started db none = (raised, db)
  started db (some db') = (status (codes "OK"), db')

  unfoldable pub record_active_conversation : Text → Text → Text → ℤ → Db → Response × Db
  record_active_conversation state active now_ms active_window_ms db =
      let db' = reset_state state now_ms db in
      started db' (set_px active yes_flag active_window_ms db')

  -- The function `enqueue` of the ingress script.
  unfoldable pub enqueue : Text → Text → ℤ → ℤ → Text → Text → Db → Response × Db
  enqueue queue payload max_len ttl_ms reason with_reminder db =
      if leb_ℤ max_len (pos (llen queue db))
      then (array (bulk (codes "full") ∷ bulk reason ∷ []), db)
      else let db' = pexpire queue ttl_ms (rpush queue payload db) in
        let tag =
          if text_eq with_reminder yes_flag then codes "queued_reminder" else codes "queued" in
        (array (bulk tag ∷ bulk reason ∷ int (pos (llen queue db')) ∷ []), db')

  unfoldable pub acquire_or_enqueue : Text → Text → Text → ℤ → ℤ → Text → ℤ → ℤ → Db → Response × Db
  acquire_or_enqueue state active queue threshold warn_ms payload max_len ttl_ms db =
      if is_set state frozen_field db || ltb 0 (llen queue db)
      then enqueue queue payload max_len ttl_ms (reason_of state db) no_flag db
      else let ttl = pttl active db in
        if no_window ttl
        then enqueue queue payload max_len ttl_ms reason_time no_flag
            (freeze state reason_time no_flag db)
        else if leb_ℤ ttl warn_ms
        then enqueue queue payload max_len ttl_ms reason_time yes_flag
            (freeze state reason_time yes_flag db)
        else count_send state threshold ttl (out_count state db) db

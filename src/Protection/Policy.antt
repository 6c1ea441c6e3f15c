-- ===== src/Protection/Policy.antt =====
-- What the protection promises of one bot, with no database: a lock, a count of the messages since
-- the last conversation, the time that is left to answer, and a queue. The scripts are proved to
-- implement these operations in Refine.
pub mod Steps
pub mod Budget
pub mod Settled
pub mod Fifo
use webot_msg.Common.{
  ℕ, suc, ◌+◌, ◌-◌, ◌≡◌, Bool, true, false, ◌||◌, ◌&&◌, List, [], ◌∷◌, ◌++◌, leb, ltb, length,
  if◌then◌else◌, Text, text_eq, codes,
}
use webot_msg.Common.Int.{ℤ, pos, negsuc, leb_ℤ, eqb_ℤ}
use webot_msg.Protection.Scripts.{no_window, reason_time, reason_count}

-- `locked` has the reason, and whether the reminder is still due.
pub data Lock : Type 0 where
  unlocked : Lock
  locked : Text → Bool → Lock

abbrev pub is_locked : Lock → Bool
is_locked unlocked = false
is_locked (locked reason due) = true

abbrev pub lock_reason : Lock → Text
lock_reason unlocked = []
lock_reason (locked reason due) = reason

abbrev pub lock_due : Lock → Bool
lock_due unlocked = false
lock_due (locked reason due) = due

-- `window` is in milliseconds, and negative where no conversation is active.
pub record BotState : Type 0 where
  pub lock : Lock
  pub count : ℕ
  pub window : ℤ
  pub queue : List Text

pub record Limits : Type 0 where
  pub threshold : ℤ
  pub warn_ms : ℤ
  pub max_len : ℤ

pub data Ruling : Type 0 where
  sends : ℕ → ℤ → Ruling
  sends_then_reminds : ℕ → ℤ → Ruling
  rejects : Text → Ruling
  reminds_only : Text → Ruling
  enqueues : Text → Bool → ℕ → Ruling
  overflows : Text → Ruling
  reminds : Text → Ruling
  allows : Ruling

-- One more message: the one that reaches the threshold locks the bot.
unfoldable pub count_one : Limits → BotState → Ruling × BotState
count_one l s =
    if leb_ℤ l.threshold (pos (suc s.count))
    then (
      sends_then_reminds (suc s.count) s.window,
      record s { lock = locked reason_count true; count = suc s.count },
    )
    else (sends (suc s.count) s.window, record s { count = suc s.count })

unfoldable pub reserve_unlocked : Limits → BotState → Ruling × BotState
reserve_unlocked l s =
    if no_window s.window
    then (rejects reason_time, record s { lock = locked reason_time false })
    else if leb_ℤ s.window l.warn_ms
    then (reminds_only reason_time, record s { lock = locked reason_time true })
    else count_one l s

unfoldable pub reserve_from : Lock → Limits → BotState → Ruling × BotState
reserve_from unlocked l s = reserve_unlocked l s
reserve_from (locked reason due) l s = (rejects reason, s)

unfoldable pub reserve : Limits → BotState → Ruling × BotState
reserve l s = reserve_from s.lock l s

-- The lock that a reservation put on goes with it, if its reminder was not sent yet.
unfoldable pub release_lock : Lock → Lock
release_lock unlocked = unlocked
release_lock (locked reason due) =
    if text_eq reason reason_count && due then unlocked else locked reason due

unfoldable pub release : BotState → BotState
release s = record s { lock = release_lock s.lock; count = s.count - 1 }

unfoldable pub reminded : BotState → BotState
reminded s = record s { lock = locked (lock_reason s.lock) false; count = suc s.count }

unfoldable pub activate : ℤ → BotState → BotState
activate window s = record s { lock = unlocked; count = 0; window = window }

unfoldable pub check_unlocked : Limits → BotState → Ruling × BotState
check_unlocked l s =
    if no_window s.window
    then (rejects reason_time, s)
    else if leb_ℤ s.window l.warn_ms
    then (reminds reason_time, record s { lock = locked reason_time true })
    else (allows, s)

unfoldable pub check_from : Lock → Limits → BotState → Ruling × BotState
check_from unlocked l s = check_unlocked l s
check_from (locked reason due) l s = (rejects reason, s)

unfoldable pub check_window : Limits → BotState → Ruling × BotState
check_window l s = check_from s.lock l s

unfoldable pub put : Limits → Text → Text → Bool → BotState → Ruling × BotState
put l payload reason due s =
    if leb_ℤ l.max_len (pos (length s.queue))
    then (overflows reason, s)
    else (enqueues reason due (suc (length s.queue)), record s { queue = s.queue ++ payload ∷ [] })

unfoldable pub acquire : Limits → Text → BotState → Ruling × BotState
acquire l payload s =
    if is_locked s.lock || ltb 0 (length s.queue)
    then put l payload (lock_reason s.lock) false s
    else if no_window s.window
    then put l payload reason_time false (record s { lock = locked reason_time false })
    else if leb_ℤ s.window l.warn_ms
    then put l payload reason_time true (record s { lock = locked reason_time true })
    else count_one l s

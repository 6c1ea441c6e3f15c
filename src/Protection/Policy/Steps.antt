-- ===== src/Protection/Policy/Steps.antt =====
-- Everything that can happen to a bot, and what stays true.
use webot_msg.Common.{
  suc, ◌≤◌, ◌≡◌, Bool, true, false, List, [], ◌∷◌, arith, Text, tail, length, length-append,
}
use webot_msg.Common.Int.{ℤ, pos, ◌≤ℤ◌, ◌<ℤ◌}
use webot_msg.Protection.Scripts.{reason_time}
use webot_msg.Protection.Policy.{
  unlocked, locked, lock_reason, lock_due, BotState, Limits, count_one, reserve_unlocked,
  reserve_from, reserve, release_lock, release, reminded, activate, check_unlocked, check_from,
  check_window, put, acquire,
}

-- The operations, and what comes from outside: time passes, and the queue may expire.
pub data Step (l : Limits) (s : BotState) : BotState → Type 0 where
  reserves : Step l s (reserve l s).1
  acquires : (payload : Text) → Step l s (acquire l payload s).1
  releases : Step l s (release s)
  reminds : Step l s (reminded s)
  checks : Step l s (check_window l s).1
  activates : (window : ℤ) → Step l s (activate window s)
  drops : Step l s (record s { queue = tail s.queue })
  passes : (window : ℤ) → Step l s (record s { window = window })
  expires : Step l s (record s { queue = [] })

pub data Reach (l : Limits) (s : BotState) : BotState → Type 0 where
  start : Reach l s s
  next : {t u : BotState} → Reach l s t → Step l t u → Reach l s u

length-tail : (xs : List Text) → length (tail xs) ≤ length xs
length-tail [] = omega arith
length-tail (x ∷ xs) = omega arith

pub Reach-trans : {l : Limits} {s t u : BotState} → Reach l s t → Reach l t u → Reach l s u
Reach-trans p start = p
Reach-trans p (next q st) = next (Reach-trans p q) st

-- An open bot has a message left, and a lock with its reminder due was put on in time.
pub record WithinBudget (l : Limits) (s : BotState) : Type 0 where
  pub open_below : s.lock ≡ unlocked → pos s.count <ℤ l.threshold
  pub due_within : lock_due s.lock ≡ true → pos s.count ≤ℤ l.threshold
  pub queue_fits : pos (length s.queue) ≤ℤ l.max_len

module _ (l : Limits) (positive : pos 0 <ℤ l.threshold) (room : pos 0 ≤ℤ l.max_len) where
  abbrev lock_time : Bool → BotState → BotState
  lock_time due s = record s { lock = locked reason_time due }

  count_one-WithinBudget :
      (s : BotState) → s.lock ≡ unlocked → WithinBudget l s → WithinBudget l (count_one l s).1
  unfolding count_one
  count_one-WithinBudget s e h = ground arith

  reserve-WithinBudget : (s : BotState) → WithinBudget l s → WithinBudget l (reserve l s).1
  unfolding reserve reserve_from reserve_unlocked
  reserve-WithinBudget s h = ground (arith, count_one-WithinBudget s)

  put-WithinBudget :
      (payload reason : Text) (due : Bool) (s : BotState)
      → WithinBudget l s
      → WithinBudget l (put l payload reason due s).1
  unfolding put
  put-WithinBudget payload reason due s h = ground (arith, length-append s.queue (payload ∷ []))

  acquire-WithinBudget :
      (payload : Text) (s : BotState) → WithinBudget l s → WithinBudget l (acquire l payload s).1
  unfolding acquire
  acquire-WithinBudget payload s h = ground (
    arith,
    put-WithinBudget payload (lock_reason s.lock) false s,
    put-WithinBudget payload reason_time false (lock_time false s),
    put-WithinBudget payload reason_time true (lock_time true s),
    count_one-WithinBudget s,
  )

  release-WithinBudget : (s : BotState) → WithinBudget l s → WithinBudget l (release s)
  unfolding release release_lock
  release-WithinBudget s h = ground arith

  Step-WithinBudget : {s t : BotState} → Step l s t → WithinBudget l s → WithinBudget l t
  unfolding reminded activate check_window check_from check_unlocked
  Step-WithinBudget {s} reserves h = reserve-WithinBudget s h
  Step-WithinBudget {s} (acquires payload) h = acquire-WithinBudget payload s h
  Step-WithinBudget {s} releases h = release-WithinBudget s h
  Step-WithinBudget {s} reminds h = ground arith
  Step-WithinBudget {s} checks h = ground arith
  Step-WithinBudget {s} (activates window) h = ground arith
  Step-WithinBudget {s} drops h = ground (arith, length-tail s.queue)
  Step-WithinBudget {s} (passes window) h = ground arith
  Step-WithinBudget {s} expires h = ground arith

  -- Whatever happens after a state within the budget, the bot stays within it.
  pub Reach-WithinBudget : {s t : BotState} → WithinBudget l s → Reach l s t → WithinBudget l t
  Reach-WithinBudget h start = h
  Reach-WithinBudget h (next r st) = Step-WithinBudget st (Reach-WithinBudget h r)

-- A step adds one message at most.
pub Step-count : {l : Limits} {s t : BotState} → Step l s t → t.count ≤ suc s.count
unfolding reserve reserve_from reserve_unlocked count_one acquire put release reminded check_window
    check_from check_unlocked activate
Step-count reserves = ground arith
Step-count (acquires payload) = ground arith
Step-count releases = ground arith
Step-count reminds = ground arith
Step-count checks = ground arith
Step-count (activates window) = ground arith
Step-count drops = omega arith
Step-count (passes window) = omega arith
Step-count expires = omega arith

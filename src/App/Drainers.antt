-- ===== src/App/Drainers.antt =====
-- internal/app/send_queue.go: the table of the loops of the bots. A `sendQueueDrainer` is an address,
-- and `drain_returned` is what a loop's goroutine does when its `drainSendQueue` returns. Starts,
-- returns and the takes hold the mutex of the monitors. A stop is two steps: it takes the loop out of
-- the table under the mutex, and cancels it after it has released the mutex; in between the loop is
-- `due`, which stands for the variables `drainer` and `cancels` of the stops that are at work.
pub mod Single
pub mod Steps
use webot_msg.Common.{
  ℕ, suc, ◌==◌, ◌&&◌, ◌||◌, Bool, true, false, not, Option, none, some, if◌then◌else◌, Text,
  text_eq,
}

pub record SendQueueDrainer : Type 0 where
  pub owner : Text
  pub rerun : Bool
  pub cancelled : Bool
  pub draining : Bool

pub record Drainers : Type 0 where
  pub running : Text → Option ℕ
  pub drainers : ℕ → SendQueueDrainer
  pub started : ℕ
  pub due : ℕ → Bool

abbrev pub is_this : Option ℕ → ℕ → Bool
is_this none d = false
is_this (some c) d = c == d

abbrev pub set_running : (Text → Option ℕ) → Text → Option ℕ → Text → Option ℕ
set_running f bot d other = if text_eq bot other then d else f other

abbrev pub set_drainer : (ℕ → SendQueueDrainer) → ℕ → SendQueueDrainer → ℕ → SendQueueDrainer
set_drainer f d x e = if e == d then x else f e

abbrev new_drainer : Text → SendQueueDrainer
new_drainer bot = record { owner = bot; rerun = false; cancelled = false; draining = true }

unfoldable pub start_for : Option ℕ → Text → Drainers → Drainers
start_for (some d) bot s = record s {
  drainers = set_drainer s.drainers d (record (s.drainers d) { rerun = true });
}
start_for none bot s = record s {
  running = set_running s.running bot (some s.started);
  drainers = set_drainer s.drainers s.started (new_drainer bot);
  started = suc s.started;
}

unfoldable pub start_send_queue_drainer : Bool → Text → Drainers → Drainers
start_send_queue_drainer enabled bot s = if enabled then start_for (s.running bot) bot s else s

-- `monitorSendQueue`, from one `drainSendQueue` to the next or to its return.
unfoldable pub drain_returned : ℕ → Drainers → Drainers
drain_returned d s =
    let drainer = s.drainers d in
    let stopped = set_drainer s.drainers d (record drainer { draining = false }) in
    if not (is_this (s.running drainer.owner) d)
    then record s { drainers = stopped }
    else if drainer.rerun
    then record s { drainers = set_drainer s.drainers d (record drainer { rerun = false }) }
    else record s { running = set_running s.running drainer.owner none; drainers = stopped }

-- The part of `stopSendQueueDrainer` under the mutex: the loop of the bot leaves the table.
unfoldable pub take_drainer : Text → Drainers → Drainers
take_drainer bot s = record s {
  running = set_running s.running bot none;
  due = λ d. is_this (s.running bot) d || s.due d;
}

-- The same of `stopSendQueueDrainers`: every loop leaves the table.
unfoldable pub take_drainers : Drainers → Drainers
take_drainers s = record s {
  running = λ bot. none;
  due = λ d. is_this (s.running (s.drainers d).owner) d || s.due d;
}

-- `drainer.cancel()`, after the mutex is released.
unfoldable pub cancel_drainer : Option ℕ → Drainers → Drainers
cancel_drainer none s = s
cancel_drainer (some d) s = record s {
  drainers = set_drainer s.drainers d (record (s.drainers d) { cancelled = true });
  due = λ e. not (e == d) && s.due e;
}

-- The cancels of `stopSendQueueDrainers`, after the mutex is released.
unfoldable pub cancel_drainers : (ℕ → Bool) → Drainers → Drainers
cancel_drainers taken s = record s {
  drainers = λ d. if taken d then record (s.drainers d) { cancelled = true } else s.drainers d;
  due = λ d. not (taken d) && s.due d;
}

-- The two methods from beginning to end, when nothing else runs between their parts.
unfoldable pub stop_send_queue_drainer : Text → Drainers → Drainers
stop_send_queue_drainer bot s = cancel_drainer (s.running bot) (take_drainer bot s)

unfoldable pub stop_send_queue_drainers : Drainers → Drainers
stop_send_queue_drainers s =
    cancel_drainers (λ d. is_this (s.running (s.drainers d).owner) d) (take_drainers s)

unfoldable pub no_drainers : SendQueueDrainer → Drainers
no_drainers x = record { running = λ bot. none; drainers = λ d. x; started = 0; due = λ d. false }

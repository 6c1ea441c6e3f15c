-- ===== src/App/Drainers/Steps.antt =====
-- What the goroutines do to the table of loops, in any order, and what that never does.
use webot_msg.Common.{
  ℕ, ◌<◌, ◌≡◌, ◌⊎◌, inl, inr, Bool, true, false, Option, none, some, arith, refl, Text,
  text_eq_refl, [],
}
use webot_msg.App.Drainers.{
  SendQueueDrainer, Drainers, is_this, start_for, start_send_queue_drainer, drain_returned,
  take_drainer, take_drainers, cancel_drainer, no_drainers,
}
use webot_msg.App.Drainers.Single.{
  Tidy, start-Tidy, returned-Tidy, take_drainer-Tidy, take_drainers-Tidy, cancel_drainer-Tidy,
  none-Tidy,
}

-- A start reads the switch of the protection before it takes the mutex. A stop takes the loop out of
-- the table, and cancels it later, when other steps may have come in between.
pub data Step : Drainers → Drainers → Type 0 where
  start :
      {s : Drainers} (enabled : Bool) (bot : Text) → Step s (start_send_queue_drainer enabled bot s)
  returned : {s : Drainers} (d : ℕ) → (s.drainers d).draining ≡ true → Step s (drain_returned d s)
  takes : {s : Drainers} (bot : Text) → Step s (take_drainer bot s)
  takes_all : {s : Drainers} → Step s (take_drainers s)
  cancels : {s : Drainers} (d : ℕ) → s.due d ≡ true → Step s (cancel_drainer (some d) s)

pub data Reachable (x : SendQueueDrainer) : Drainers → Type 0 where
  at_first : Reachable x (no_drainers x)
  next : {s s' : Drainers} → Reachable x s → Step s s' → Reachable x s'

Step-Tidy : {s s' : Drainers} → Tidy s → Step s s' → Tidy s'
Step-Tidy {s = s} t (start enabled bot) = start-Tidy bot s t enabled
Step-Tidy {s = s} t (returned d w) = returned-Tidy s t d
Step-Tidy {s = s} t (takes bot) = take_drainer-Tidy bot s t
Step-Tidy {s = s} t takes_all = take_drainers-Tidy [] s t
Step-Tidy {s = s} t (cancels d h) = cancel_drainer-Tidy [] s t d h

pub Reachable-Tidy : {x : SendQueueDrainer} {s : Drainers} → Reachable x s → Tidy s
Reachable-Tidy {x = x} at_first = none-Tidy x
Reachable-Tidy (next r p) = Step-Tidy (Reachable-Tidy r) p

-- In every state that the monitors reach, two drain loops that are at work for the same bot, neither
-- of which was cancelled or was taken out of the table by a stop that is yet to cancel it, are one
-- and the same.
pub one_loop_per_bot :
    {x : SendQueueDrainer} {s : Drainers} (d e : ℕ)
    → Reachable x s
    → d < s.started
    → e < s.started
    → (s.drainers d).draining ≡ true
    → (s.drainers e).draining ≡ true
    → (s.drainers d).cancelled ≡ false
    → (s.drainers e).cancelled ≡ false
    → s.due d ≡ false
    → s.due e ≡ false
    → (s.drainers d).owner ≡ (s.drainers e).owner
    → d ≡ e
one_loop_per_bot {s = s} d e r i j w v c k x y o =
    let t = Reachable-Tidy r in
    let first = t.at_work d i w c x in let second = t.at_work e j v k y in cc

-- The loop `d` is in the table for `bot` and drains.
pub record Drains (s : Drainers) (bot : Text) (d : ℕ) : Type 0 where
  pub listed : s.running bot ≡ some d
  pub draining : (s.drainers d).draining ≡ true
  pub cancelled : (s.drainers d).cancelled ≡ false

-- A loop that a start has just made, or one that starts over when its drain returns.
abbrev pub Serves : Drainers → Drainers → Text → ℕ → Type 0
Serves before after bot d =
    Drains after bot d × ((d ≡ before.started) ⊎ Drains (drain_returned d after) bot d)

is_this_self : (d : ℕ) → is_this (some d) d ≡ true
is_this_self d = ground arith

start_for-Serves :
    (o : Option ℕ) (bot : Text) (s : Drainers)
    → Tidy s
    → s.running bot ≡ o
    → (d : ℕ) × Serves s (start_for o bot s) bot d
unfolding start_for drain_returned
start_for-Serves none bot s t e = (
  s.started,
  (
    record {
      listed = ground (arith, text_eq_refl bot);
      draining = ground (arith, text_eq_refl bot);
      cancelled = ground (arith, text_eq_refl bot);
    },
    inl refl,
  ),
)
start_for-Serves (some d) bot s t e =
    let known = t.listed bot d e in
    (
      d,
      (
        record {
          listed = e;
          draining = ground (arith, is_this_self d);
          cancelled = ground (arith, is_this_self d);
        },
        inr (record {
          listed = ground (arith, is_this_self d);
          draining = ground (arith, is_this_self d);
          cancelled = ground (arith, is_this_self d);
        }),
      ),
    )

-- In every state that the monitors reach, a start for a bot, with the protection on, leaves a loop
-- in the table that drains, is not cancelled, and is either new or drains once more after the
-- drain at hand returns.
pub wake_up_kept :
    {x : SendQueueDrainer} {s : Drainers} (bot : Text)
    → Reachable x s
    → (d : ℕ) × Serves s (start_send_queue_drainer true bot s) bot d
unfolding start_send_queue_drainer
wake_up_kept {s = s} bot r = start_for-Serves (s.running bot) bot s (Reachable-Tidy r) refl

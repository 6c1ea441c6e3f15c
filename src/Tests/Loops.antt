-- ===== src/Tests/Loops.antt =====
-- A bot's loop is started and taken out of the table, started again before the old one is cancelled,
-- and then woken up.
use webot_msg.Common.{ℕ, ◌≡◌, refl, some, true, false, text_eq, [], arith}
use webot_msg.App.Drainers.{
  SendQueueDrainer, Drainers, no_drainers, start_for, start_send_queue_drainer, take_drainer,
  cancel_drainer,
}
use webot_msg.App.Drainers.Steps.{
  Reachable, at_first, next, start, takes, cancels, one_loop_per_bot, wake_up_kept, Serves,
}
use webot_msg.Tests.Setup.{bot}

abbrev idle : SendQueueDrainer
idle = record { owner = []; rerun = false; cancelled = false; draining = false }

abbrev restarted : Drainers
restarted = cancel_drainer (some 0) (
    start_send_queue_drainer true bot
      (take_drainer bot (start_send_queue_drainer true bot (no_drainers idle))))

restarted-Reachable : Reachable idle restarted
unfolding no_drainers start_for start_send_queue_drainer take_drainer text_eq
restarted-Reachable =
    next (next (next (next at_first (start true bot)) (takes bot)) (start true bot))
      (cancels 0 refl)

one_loop_per_bot_example : ◌≡◌ {A = ℕ} 1 1
unfolding no_drainers start_for start_send_queue_drainer take_drainer cancel_drainer text_eq
one_loop_per_bot_example =
    one_loop_per_bot 1 1 restarted-Reachable (omega arith) (omega arith) refl refl refl refl refl
      refl refl

wake_up_kept_example :
    (d : ℕ) × Serves restarted (start_send_queue_drainer true bot restarted) bot d
wake_up_kept_example = wake_up_kept bot restarted-Reachable

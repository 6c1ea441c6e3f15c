-- ===== src/Protection/Policy/Fifo.antt =====
-- The queue of a bot: first in, first out, never overtaken, never longer than its limit.
use webot_msg.Common.{
  ℕ, suc, ◌≡◌, refl, sym, ap, ◌≢◌, Bool, false, List, [], ◌∷◌, ◌++◌, append_assoc, append-nil,
  arith, Text, tail, length, length-append,
}
use mathlib.Core.Path.{◌≡⟨◌⟩◌, ◌∎}
use webot_msg.Common.Int.{ℤ, pos, leb_ℤ, ◌≤ℤ◌}
use webot_msg.Protection.Scripts.{no_window}
use webot_msg.Protection.Policy.{
  unlocked, is_locked, BotState, Limits, Ruling, enqueues, count_one, reserve_unlocked,
  reserve_from, reserve, release, reminded, activate, check_unlocked, check_from, check_window, put,
  acquire,
}
use webot_msg.Protection.Policy.Budget.{Sends}

module _ (l : Limits) where
  -- Ingress lets a message go at once only if nobody waits, the bot is open, and the window leaves
  -- more time than the warning needs. The queue stays as it is.
  pub acquire_no_overtaking :
      (n : ℕ) (payload : Text) (s : BotState)
      → Sends n (acquire l payload s).0
      → (s.queue ≡ [])
        × (s.lock ≡ unlocked)
        × (no_window s.window ≡ false)
        × (leb_ℤ s.window l.warn_ms ≡ false)
        × (n ≡ suc s.count)
        × ((acquire l payload s).1.queue ≡ [])
  unfolding acquire put count_one
  acquire_no_overtaking n payload s h = ground arith

  -- A message that is queued stands last, its reply tells the length, and the limit is kept.
  pub acquire_queues_last :
      (reason : Text) (due : Bool) (n : ℕ) (payload : Text) (s : BotState)
      → (acquire l payload s).0 ≡ enqueues reason due n
      → ((acquire l payload s).1.queue ≡ s.queue ++ payload ∷ [])
        × (n ≡ length (acquire l payload s).1.queue)
        × (pos n ≤ℤ l.max_len)
        × (is_locked (acquire l payload s).1.lock ≡ false → s.queue ≢ [])
  unfolding acquire put count_one
  acquire_queues_last reason due n payload s h =
      ground (arith, length-append s.queue (payload ∷ []))

-- What the callers do to a bot, one call after the other.
pub data Action : Type 0 where
  ingress : Text → Action
  pop_front direct_send send_failed reminder_sent window_check : Action
  conversation : ℤ → Action
  elapse : ℤ → Action

abbrev pub accept : Ruling → Text → List Text
accept (enqueues reason due n) payload = payload ∷ []
accept _ payload = []

abbrev pub front : List Text → List Text
front [] = []
front (x ∷ xs) = x ∷ []

-- The state after an action, the payloads that it put into the queue, and those that it took out.
unfoldable pub act : Limits → Action → BotState → BotState × List Text × List Text
act l (ingress payload) s = let (v, s') = acquire l payload s in (s', accept v payload, [])
act l pop_front s = (record s { queue = tail s.queue }, [], front s.queue)
act l direct_send s = ((reserve l s).1, [], [])
act l send_failed s = (release s, [], [])
act l reminder_sent s = (reminded s, [], [])
act l window_check s = ((check_window l s).1, [], [])
act l (conversation window) s = (activate window s, [], [])
act l (elapse window) s = (record s { window = window }, [], [])

unfoldable pub play : Limits → List Action → BotState → BotState × List Text × List Text
play l [] s = (s, [], [])
play l (a ∷ later) s =
    let (s', more_in, more_out) = act l a s in
    let (t, ins, outs) = play l later s' in (t, more_in ++ ins, more_out ++ outs)

pop-queue : (q : List Text) → q ++ [] ≡ front q ++ tail q
pop-queue [] = refl
pop-queue (x ∷ xs) = append-nil (x ∷ xs)

act-queue :
    (l : Limits) (a : Action) (s : BotState)
    → s.queue ++ (act l a s).1 ≡ (act l a s).2 ++ (act l a s).0.queue
unfolding act acquire put count_one reserve reserve_from reserve_unlocked check_window check_from
    check_unlocked release reminded activate
act-queue l (ingress payload) s = ground (arith, append-nil s.queue)
act-queue l pop_front s = pop-queue s.queue
act-queue l direct_send s = ground (arith, append-nil s.queue)
act-queue l send_failed s = append-nil s.queue
act-queue l reminder_sent s = append-nil s.queue
act-queue l window_check s = ground (arith, append-nil s.queue)
act-queue l (conversation window) s = append-nil s.queue
act-queue l (elapse window) s = append-nil s.queue

-- First in, first out, whatever else happens to the bot: what was in the queue and what came in is,
-- in this order, what was taken out and what is left.
pub play-fifo :
    (l : Limits) (actions : List Action) (s : BotState)
    → s.queue ++ (play l actions s).1 ≡ (play l actions s).2 ++ (play l actions s).0.queue
unfolding play
play-fifo l [] s = append-nil s.queue
play-fifo l (a ∷ later) s =
    let (s', more_in, more_out) = act l a s in
    let (t, ins, outs) = play l later s' in
    s.queue ++ (more_in ++ ins)
    ≡⟨ sym (append_assoc s.queue more_in ins) ⟩ (s.queue ++ more_in) ++ ins
    ≡⟨ ap (λ q. q ++ ins) (act-queue l a s) ⟩ (more_out ++ s'.queue) ++ ins
    ≡⟨ append_assoc more_out s'.queue ins ⟩ more_out ++ (s'.queue ++ ins)
    ≡⟨ ap (λ q. more_out ++ q) (play-fifo l later s') ⟩ more_out ++ (outs ++ t.queue)
    ≡⟨ sym (append_assoc more_out outs t.queue) ⟩ (more_out ++ outs) ++ t.queue ∎

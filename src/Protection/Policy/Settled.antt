-- ===== src/Protection/Policy/Settled.antt =====
-- A lock that no failed send can take back: only a conversation opens it.
use webot_msg.Common.{◌≡◌, refl, ◌⊎◌, inl, Bool, true, false, arith, Text, text_eq}
use webot_msg.Protection.Scripts.{reason_count}
use webot_msg.Protection.Policy.{
  locked, BotState, Limits, rejects, reserve_from, reserve, release_lock, release, reminded,
  check_from, check_window, put, acquire,
}
use webot_msg.Protection.Policy.Steps.{
  Step, reserves, acquires, releases, reminds, checks, activates, drops, passes, expires, Reach,
}

abbrev pub starts_conversation : {l : Limits} {s t : BotState} → Step l s t → Bool
starts_conversation reserves = false
starts_conversation (acquires payload) = false
starts_conversation releases = false
starts_conversation reminds = false
starts_conversation checks = false
starts_conversation (activates window) = true
starts_conversation drops = false
starts_conversation (passes window) = false
starts_conversation expires = false

-- What can happen before the next conversation.
pub data Quiet (l : Limits) (s : BotState) : BotState → Type 0 where
  start : Quiet l s s
  next :
      {t u : BotState}
      → Quiet l s t
      → (st : Step l t u) → starts_conversation st ≡ false
      → Quiet l s u

pub Quiet-trans : {l : Limits} {s t u : BotState} → Quiet l s t → Quiet l t u → Quiet l s u
Quiet-trans p start = p
Quiet-trans p (next q st e) = next (Quiet-trans p q) st e

pub Quiet-Reach : {l : Limits} {s t u : BotState} → Reach l s t → Quiet l t u → Reach l s u
Quiet-Reach p start = p
Quiet-Reach p (next q st e) = Reach.next (Quiet-Reach p q) st

-- The lock is there for `reason`, and the release of a reservation does not take it back.
abbrev pub IsSettled : Text → BotState → Type 0
IsSettled reason s =
    (due : Bool) × (s.lock ≡ locked reason due)
    × ((due ≡ false) ⊎ (text_eq reason reason_count ≡ false))

module _ (l : Limits) (reason : Text) where
  Step-IsSettled :
      {s t : BotState} (st : Step l s t)
      → starts_conversation st ≡ false
      → IsSettled reason s
      → IsSettled reason t
  unfolding reserve reserve_from acquire put release release_lock reminded check_window check_from
  Step-IsSettled {s} reserves q h = (h.0, ground arith, h.2)
  Step-IsSettled {s} (acquires payload) q h = (h.0, ground arith, h.2)
  Step-IsSettled {s} releases q h = (h.0, ground arith, h.2)
  Step-IsSettled {s} reminds q h = (false, ground arith, inl refl)
  Step-IsSettled {s} checks q h = (h.0, ground arith, h.2)
  Step-IsSettled {s} (activates window) q h = cc
  Step-IsSettled {s} drops q h = h
  Step-IsSettled {s} (passes window) q h = h
  Step-IsSettled {s} expires q h = h

  -- Until the next conversation a settled lock stays, with its reason.
  pub Quiet-IsSettled : {s t : BotState} → Quiet l s t → IsSettled reason s → IsSettled reason t
  Quiet-IsSettled start h = h
  Quiet-IsSettled (next r st q) h = Step-IsSettled st q (Quiet-IsSettled r h)

  -- So no message leaves before the next conversation: a reservation is refused for that reason,
  -- and ingress puts the message into the queue or refuses it.
  pub settled_silent :
      (payload : Text) {s t : BotState}
      → IsSettled reason s
      → Quiet l s t
      → (reserve l t ≡ (rejects reason, t)) × (acquire l payload t ≡ put l payload reason false t)
  unfolding reserve reserve_from acquire
  settled_silent payload {t = t} h r = let k = Quiet-IsSettled r h in (ground arith, ground arith)

-- ===== src/Protection/RedisGuard/Faults.antt =====
-- What the methods of `RedisGuard` do when the server does not answer.
use webot_msg.Common.{◌≡◌, refl, true, Text, Error, Result, ok, err}
use webot_msg.Redis.{Redis, Response}
use webot_msg.Protection.Guard.{is_rejection}
use webot_msg.Protection.RedisGuard.{
  RedisGuardConfig, Server, reserve_normal_send, release_normal_send, record_reminder_send,
  record_active_conversation, check_time_window, as_rejection, reject_errors, reject_lost, done,
}

-- The error of a result, if any, is one of `protection.IsRejection`.
pub data Rejects {ℓ} {A : Type ℓ} : Result A → Type ℓ where
  succeeds : (a : A) → Rejects (ok a)
  rejects : (e : Error) → is_rejection e ≡ true → Rejects (err e)

module _ (r : Redis) where
  as_rejection-Rejects {ℓ} : {B : Type ℓ} (x : Result B) → Rejects (as_rejection r x)
  unfolding is_rejection
  as_rejection-Rejects (ok b) = succeeds b
  as_rejection-Rejects (err e) = rejects _ refl

  reject_errors-Rejects {ℓ κ} :
      {A : Type ℓ} {B : Type κ} (f : A → Result B) (x : Result A) → Rejects (reject_errors r f x)
  unfolding is_rejection reject_errors
  reject_errors-Rejects f (ok a) = as_rejection-Rejects (f a)
  reject_errors-Rejects f (err e) = rejects _ refl

  done-Rejects : (x : Result Response) → Rejects (reject_lost r (done r) x)
  unfolding is_rejection reject_lost
  done-Rejects (ok a) = succeeds tt
  done-Rejects (err e) = rejects _ refl

  module _ (g : RedisGuardConfig) (bot : Text) where
    -- The guard fails closed: whatever goes wrong with the call or with its reply, every error of
    -- its five methods is a rejection.
    pub fails_closed :
        (s : Server r)
        → Rejects (reserve_normal_send r g bot s).0
          × Rejects (release_normal_send r g bot s).0
          × Rejects (record_reminder_send r g bot s).0
          × Rejects (record_active_conversation r g bot s).0
          × Rejects (check_time_window r g bot s).0
    unfolding reserve_normal_send release_normal_send record_reminder_send
        record_active_conversation check_time_window
    fails_closed s = (
      reject_errors-Rejects _ _,
      done-Rejects _,
      done-Rejects _,
      done-Rejects _,
      reject_errors-Rejects _ _,
    )

-- ===== src/Sender/World.antt =====
-- A sender over the Redis guard: the server, the messages that went out, and what the network does
-- with those to come.
use webot_msg.Common.{ℕ, ◌≡◌, List, [], ◌∷◌, ◌++◌, Option, none, some, Text, Error, Result, ok, err}
use webot_msg.Config.{UserConfig}
use webot_msg.Redis.{Redis}
use webot_msg.Protection.Guard.{Guard, QueueController}
use webot_msg.Protection.RedisGuard
use webot_msg.Protection.RedisGuard.{
  RedisGuardConfig, PayloadCodec, Server, redis_guard, redis_queue,
}
use webot_msg.Sender.ProtectedText.{Services}

pub record Message : Type 0 where
  pub recipient : Text
  pub text : Text
  pub token : Text

-- `wire` has the fate of the sends to come: `some` is a send that fails; once it ends, all arrive.
-- `ids` has the results of the source of ids, and `audits` what was recorded.
pub record World (r : Redis) : Type 0 where
  pub server : Server r
  pub outbox : List Message
  pub wire : List (Option Error)
  pub ids : ℕ → Result Text
  pub drawn : ℕ
  pub audits : List (Text × Text)

module _ (r : Redis) where
  abbrev pub on_server {ℓ} : {A : Type ℓ} → (Server r → A × Server r) → World r → A × World r
  on_server f w = let (a, s) = f w.server in (a, record w { server = s })

  transmit : List (Option Error) → Message → World r → Result (Unit {0}) × World r
  transmit [] message w = (ok tt, record w { outbox = w.outbox ++ message ∷ [] })
  transmit (none ∷ wire) message w =
      (ok tt, record w { outbox = w.outbox ++ message ∷ []; wire = wire })
  transmit (some e ∷ wire) message w = (err e, record w { wire = wire })

  unfoldable pub send : UserConfig → Text → Text → Text → World r → Result (Unit {0}) × World r
  unfolding transmit
  send user to text token w =
      transmit w.wire (record { recipient = to; text = text; token = token }) w

  pub send-lost :
      (user : UserConfig) (to text token : Text) (e : Error) (wire : List (Option Error))
      (w : World r)
      → w.wire ≡ some e ∷ wire
      → send user to text token w ≡ (err e, record w { wire = wire })
  unfolding send
  send-lost user to text token e wire w h = simp h

  -- A send that arrives.
  pub send-arrives :
      (user : UserConfig) (to text token : Text) (w : World r)
      → w.wire ≡ []
      → send user to text token w ≡ (
        ok tt,
        record w {
          outbox = w.outbox ++ record { recipient = to; text = text; token = token } ∷ [];
        },
      )
  unfolding send
  send-arrives user to text token w h = simp h

  abbrev pub world_guard : RedisGuardConfig → Guard (World r)
  world_guard g = record {
    reserve_normal_send = λ bot. on_server (RedisGuard.reserve_normal_send r g bot);
    release_normal_send = λ bot. on_server (RedisGuard.release_normal_send r g bot);
    record_reminder_send = λ bot. on_server (RedisGuard.record_reminder_send r g bot);
    record_active_conversation = λ bot. on_server (RedisGuard.record_active_conversation r g bot);
    check_time_window = λ bot. on_server (RedisGuard.check_time_window r g bot);
  }

  abbrev pub world_queue : PayloadCodec → RedisGuardConfig → QueueController (World r)
  world_queue codec g = record {
    acquire_or_enqueue = λ bot text. on_server (RedisGuard.acquire_or_enqueue r codec g bot text);
    peek_queued = λ bot. on_server (RedisGuard.peek_queued r codec g bot);
    drop_front = λ bot. on_server (RedisGuard.drop_front r codec g bot);
    queue_len = λ bot. on_server (RedisGuard.queue_len r codec g bot);
  }

  abbrev pub services : PayloadCodec → RedisGuardConfig → Services (World r)
  services codec g = record {
    guard = world_guard g;
    controller = some (world_queue codec g);
    send_message = send;
    generate_id = λ w. (w.ids w.drawn, record w { drawn = ℕ.suc w.drawn });
    record_audit = λ id text w. (ok tt, record w { audits = w.audits ++ (id, text) ∷ [] });
  }

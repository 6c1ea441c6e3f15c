-- ===== src/Protection/RuntimeGuard.antt =====
-- internal/protection/runtime_guard.go: the guard that can be switched on and off while messages are
-- sent. Pointers are addresses: of the generations, of the operations and of the Redis clients that
-- were made. Every method below runs under the mutex, or closes a client that no one else holds.
pub mod Counts
pub mod Lifecycle
pub mod Switching
pub mod Enabling
pub mod Operations
pub mod Finishing
pub mod Safety
use webot_msg.Common.{
  ℕ, zero, suc, ◌+◌, ◌-◌, ltb, ◌==◌, Bool, true, false, ◌&&◌, Option, none, some, if◌then◌else◌,
  Text, Error,
}
use webot_msg.Common.Int.{ℤ}
use webot_msg.Protection.RedisGuard.{RedisGuardConfig, new_redis_guard}

pub record EnableConfig : Type 0 where
  pub redis_url : Text
  pub redis_password : Text
  pub key_prefix : Text
  pub message_limit : ℤ
  pub message_warning_remaining : ℤ
  pub active_window : ℤ
  pub time_warning_before : ℤ
  pub queue_max_len : ℤ
  pub queue_ttl : ℤ

abbrev pub guard_config : EnableConfig → RedisGuardConfig
guard_config cfg = new_redis_guard (record {
  key_prefix = cfg.key_prefix;
  message_limit = cfg.message_limit;
  message_warning_remaining = cfg.message_warning_remaining;
  active_window = cfg.active_window;
  time_warning_before = cfg.time_warning_before;
  queue_max_len = cfg.queue_max_len;
  queue_ttl = cfg.queue_ttl;
})

-- A `RedisGuard`: the client that its commands go through, and its settings.
pub record BoundGuard : Type 0 where
  pub client : ℕ
  pub config : RedisGuardConfig

pub record GuardGeneration : Type 0 where
  pub guard : BoundGuard
  pub client : Option ℕ
  pub refs : ℕ
  pub retired : Bool

-- A `runtimeOperation`, and whether its `sync.Once` is spent.
pub record RuntimeOperation : Type 0 where
  pub generation : ℕ
  pub finished : Bool

-- The `RuntimeGuard` (its first two fields) with the objects that it has allocated, and how often
-- each client was closed.
pub record RuntimeGuard : Type 0 where
  pub current : Option ℕ
  pub enabled : Bool
  pub generations : ℕ → GuardGeneration
  pub allocated : ℕ
  pub operations : ℕ → RuntimeOperation
  pub begun : ℕ
  pub clients : ℕ
  pub closings : ℕ → ℕ

abbrev pub set {ℓ} : {A : Type ℓ} → (ℕ → A) → ℕ → A → ℕ → A
set f i a j = if j == i then a else f j

-- `closeRedisClient`
unfoldable pub close_redis_client : Option ℕ → RuntimeGuard → RuntimeGuard
close_redis_client none s = s
close_redis_client (some c) s = record s { closings = set s.closings c (suc (s.closings c)) }

abbrev pub put_generation : RuntimeGuard → ℕ → GuardGeneration → RuntimeGuard
put_generation s a gen = record s { generations = set s.generations a gen }

-- `retireLocked`: the client to close, if nobody uses the generation.
unfoldable pub retire_locked : Option ℕ → RuntimeGuard → Option ℕ × RuntimeGuard
retire_locked none s = (none, s)
retire_locked (some a) s =
    let gen = s.generations a in
    if ltb 0 gen.refs
    then (none, put_generation s a (record gen { retired = true }))
    else (gen.client, put_generation s a (record gen { retired = true; client = none }))

-- The generation that was current is retired, and its client closed if nobody uses it.
unfoldable pub retire_and_close : Option ℕ → RuntimeGuard → RuntimeGuard
unfolding retire_locked close_redis_client
retire_and_close old s = let (client, s') = retire_locked old s in close_redis_client client s'

abbrev pub new_generation : BoundGuard → GuardGeneration
new_generation guard = record {
  guard = guard;
  client = some guard.client;
  refs = 0;
  retired = false;
}

-- The new generation is in place, and the old one is not yet retired.
abbrev pub installed : BoundGuard → RuntimeGuard → RuntimeGuard
installed guard s = record s {
  current = some s.allocated;
  enabled = true;
  generations = set s.generations s.allocated (new_generation guard);
  allocated = suc s.allocated;
}

-- What is outside: whether a client can be made for an address and a password (`NewRedisClient`),
-- and whether a client that was made answers a ping.
pub record Dialer : Type 0 where
  pub dial : Text → Text → Option Error
  pub ping : ℕ → Option Error

unfoldable pub pinged : Option Error → EnableConfig → ℕ → RuntimeGuard → Option Error × RuntimeGuard
unfolding close_redis_client retire_and_close
pinged (some e) cfg c s = (some e, close_redis_client (some c) s)
pinged none cfg c s = (
  none,
  retire_and_close s.current (installed (record { client = c; config = guard_config cfg }) s),
)

unfoldable pub dialled :
    Option Error → Dialer → EnableConfig → RuntimeGuard → Option Error × RuntimeGuard
unfolding pinged
dialled (some e) d cfg s = (some e, s)
dialled none d cfg s =
    pinged (d.ping s.clients) cfg s.clients (record s { clients = suc s.clients })

unfoldable pub enable : Dialer → EnableConfig → RuntimeGuard → Option Error × RuntimeGuard
unfolding dialled
enable d cfg s = dialled (d.dial cfg.redis_url cfg.redis_password) d cfg s

abbrev pub switched_off : RuntimeGuard → RuntimeGuard
switched_off s = record s { current = none; enabled = false }

unfoldable pub disable : RuntimeGuard → RuntimeGuard
unfolding retire_and_close
disable s = retire_and_close s.current (switched_off s)

-- An operation lets everything pass, or is one of the guard's.
pub data Operation : Type 0 where
  static_operation : Operation
  runtime_operation : ℕ → Operation

unfoldable pub begin_on : Option ℕ → RuntimeGuard → Operation × RuntimeGuard
begin_on none s = (static_operation, s)
begin_on (some a) s =
    let gen = s.generations a in
    (
      runtime_operation s.begun,
      record s {
        generations = set s.generations a (record gen { refs = suc gen.refs });
        operations = set s.operations s.begun (record { generation = a; finished = false });
        begun = suc s.begun;
      },
    )

unfoldable pub begin_operation : RuntimeGuard → Operation × RuntimeGuard
unfolding begin_on
begin_operation s = if s.enabled then begin_on s.current s else (static_operation, s)

unfoldable pub finish_operation : ℕ → RuntimeGuard → RuntimeGuard
unfolding close_redis_client
finish_operation a s =
    let gen = s.generations a in
    let refs = gen.refs - 1 in
    if (refs == 0) && gen.retired
    then close_redis_client gen.client
        (put_generation s a (record gen { refs = refs; client = none }))
    else put_generation s a (record gen { refs = refs })

-- `(*runtimeOperation).Done`, which does its work once.
unfoldable pub done_runtime : ℕ → RuntimeGuard → RuntimeGuard
unfolding finish_operation
done_runtime i s =
    let operation = s.operations i in
    if operation.finished
    then s
    else finish_operation operation.generation
        (record s { operations = set s.operations i (record operation { finished = true }) })

unfoldable pub new_runtime_guard : GuardGeneration → RuntimeOperation → RuntimeGuard
new_runtime_guard no_generation no_operation = record {
  current = none;
  enabled = false;
  generations = λ a. no_generation;
  allocated = 0;
  operations = λ i. no_operation;
  begun = 0;
  clients = 0;
  closings = λ c. 0;
}

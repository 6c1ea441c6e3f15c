-- ===== src/Tests/Switches.antt =====
-- The guard is switched on, a message is begun, and the guard is switched off under it.
use webot_msg.Common.{◌<◌, ◌≡◌, refl, false, none, some, arith, codes}
use webot_msg.Common.Int.{pos}
use webot_msg.Protection.RuntimeGuard.{
  GuardGeneration, RuntimeOperation, RuntimeGuard, EnableConfig, Dialer, guard_config, enable,
  dialled, pinged, disable, begin_operation, begin_on, done_runtime, finish_operation,
  retire_and_close, retire_locked, close_redis_client, new_runtime_guard,
}
use webot_msg.Protection.RuntimeGuard.Counts.{uses}
use webot_msg.Protection.RuntimeGuard.Safety.{
  Reachable, starts, then_happens, enables, disables, begins, finishes, client_in_use_is_open,
  client_closed_once_idle,
}

abbrev settings : EnableConfig
settings = record {
  redis_url = codes "redis://localhost:6379";
  redis_password = codes "";
  key_prefix = codes "webot";
  message_limit = pos 10;
  message_warning_remaining = pos 2;
  active_window = pos 86400000000000;
  time_warning_before = pos 3600000000000;
  queue_max_len = pos 100;
  queue_ttl = pos 3600000000000;
}

abbrev dialer : Dialer
dialer = record { dial = λ url password. none; ping = λ c. none }

abbrev no_generation : GuardGeneration
no_generation = record {
  guard = record { client = 0; config = guard_config settings };
  client = none;
  refs = 0;
  retired = false;
}

abbrev no_operation : RuntimeOperation
no_operation = record { generation = 0; finished = false }

abbrev switched_on : RuntimeGuard
switched_on = (enable dialer settings (new_runtime_guard no_generation no_operation)).1

-- Off again, with one operation at work.
abbrev draining : RuntimeGuard
draining = disable (begin_operation switched_on).1

draining-Reachable : Reachable draining
draining-Reachable =
    then_happens
      (then_happens (then_happens (starts no_generation no_operation) (enables dialer settings))
        begins)
      disables

one_begun : 0 < draining.begun
unfolding enable dialled pinged disable begin_operation begin_on retire_and_close retire_locked
    close_redis_client new_runtime_guard
one_begun = omega arith

client_in_use_is_open_example :
    let gen = draining.generations (draining.operations 0).generation in
    (gen.client ≡ some gen.guard.client) × (draining.closings gen.guard.client ≡ 0)
unfolding enable dialled pinged disable begin_operation begin_on retire_and_close retire_locked
    close_redis_client new_runtime_guard
client_in_use_is_open_example = client_in_use_is_open draining 0 draining-Reachable one_begun refl

client_closed_once_idle_example : (done_runtime 0 draining).closings 0 ≡ 1
unfolding enable dialled pinged disable begin_operation begin_on retire_and_close retire_locked
    close_redis_client new_runtime_guard done_runtime finish_operation uses
client_closed_once_idle_example =
    client_closed_once_idle (done_runtime 0 draining) 0
      (then_happens draining-Reachable (finishes 0 one_begun)) (omega arith)

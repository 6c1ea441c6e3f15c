-- ===== src/CommandLine/Wiring.antt =====
-- Settings that resolve make a guard that can send.
use webot_msg.Common.{◌≡◌, ok, arith}
use webot_msg.Common.Int.{ℤ, pos, ◌<ℤ◌, ◌≤ℤ◌, ◌-ℤ◌, -ℤ_parts, int64, int64-fits, FitsInt64}
use webot_msg.RuntimeConfig.{Config, Env}
use webot_msg.RuntimeConfig.Resolve.{resolve}
use webot_msg.RuntimeConfig.Resolve.Valid.{Valid, resolve-Valid}
use webot_msg.Protection.RedisGuard.{RedisGuardConfig, new_redis_guard, threshold}
use webot_msg.Protection.RuntimeGuard.{guard_config}
use webot_msg.Audit.{EnableConfig}
use webot_msg.CommandLine.{protection_options, audit_options}

-- What the guard and the recorder ask of the settings.
pub record Wired (r : Config) (g : RedisGuardConfig) (a : EnableConfig) : Type 0 where
  pub settings_valid : Valid r
  pub threshold_positive : pos 0 <ℤ threshold g
  pub threshold_below_limit : threshold g <ℤ g.message_limit
  pub warning_before_end : g.time_warning_before <ℤ g.active_window
  pub queue_has_room : pos 0 <ℤ g.queue_max_len
  pub queue_lives_a_window : g.queue_ttl ≡ g.active_window
  pub time_ttl_positive : pos 0 <ℤ a.time_ttl
  pub body_ttl_positive : pos 0 <ℤ a.body_ttl

-- A limit and what is left of it at the warning.
difference_fits :
    (limit remaining : ℤ)
    → pos 1 ≤ℤ remaining
    → remaining <ℤ limit
    → FitsInt64 limit
    → (pos 0 <ℤ int64 (limit -ℤ remaining)) × (int64 (limit -ℤ remaining) <ℤ limit)
difference_fits limit remaining one less fits =
    let parts = -ℤ_parts limit remaining in
    let same = int64-fits (limit -ℤ remaining) (ground arith) in
    rw same (ground arith, ground arith)

-- Settings that `Resolve` accepts, with a message limit that an `int` holds, are valid, and wired to
-- the guard and the audit they give a threshold of at least one message and below the limit, a
-- warning within the window, a queue with room whose messages live for a window, and positive
-- lifetimes of the records.
pub resolve-Wired :
    (env : Env) (c : Config) {r : Config}
    → resolve env c ≡ ok r
    → FitsInt64 r.protection.message_limit
    → Wired r (guard_config (protection_options r)) (audit_options r)
unfolding protection_options audit_options new_redis_guard threshold
resolve-Wired env c {r = r} h fits =
    let valid = resolve-Valid env c h in
    let sound = valid.protection_sound in
    let (above, below) =
      difference_fits r.protection.message_limit r.protection.message_warning_remaining
        sound.some_remaining sound.fewer_than_limit fits in
    record {
      settings_valid = valid;
      threshold_positive = above;
      threshold_below_limit = below;
      warning_before_end = sound.warning_before_end;
      queue_has_room = ground arith;
      queue_lives_a_window =
          let same = sound.queue_ttl_is_window in let long = sound.window_positive in ground arith;
      time_ttl_positive = valid.time_ttl_positive;
      body_ttl_positive = valid.body_ttl_positive;
    }

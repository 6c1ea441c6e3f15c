-- ===== src/RuntimeConfig/Resolve/Valid.antt =====
-- What resolved settings keep to.
use webot_msg.Common.{
  Result-cases, failed, codes, Bool-cases, inl, inr, Error, ◌⊎◌, ◌≡◌, Text, ok, err, bind_ok, arith,
}
use webot_msg.Common.Int.{ℤ, pos, ◌<ℤ◌, ◌≤ℤ◌, leb_ℤ}
use webot_msg.RuntimeConfig.{Config, Env, ProtectionConfig}
use webot_msg.RuntimeConfig.Resolve.{
  parse_positive_duration, resolve_protection, resolve_telemetry, resolve_audit, resolve_files,
  resolve,
}

-- What the guard relies on.
pub record SoundProtection (p : ProtectionConfig) : Type 0 where
  pub limit_at_least_two : pos 2 ≤ℤ p.message_limit
  pub some_remaining : pos 1 ≤ℤ p.message_warning_remaining
  pub fewer_than_limit : p.message_warning_remaining <ℤ p.message_limit
  pub window_positive : pos 0 <ℤ p.active_window_duration
  pub warning_positive : pos 0 <ℤ p.time_warning_before_duration
  pub warning_before_end : p.time_warning_before_duration <ℤ p.active_window_duration
  pub interval_positive : pos 0 <ℤ p.time_check_interval_duration
  pub queue_positive : pos 0 <ℤ p.queue_max_len
  pub queue_ttl_is_window : p.queue_ttl_duration ≡ p.active_window_duration

duration_cases :
    (env : Env) (value : Text)
    → ((e : Error) × (parse_positive_duration env value ≡ err e))
      ⊎ ((d : ℤ) × (parse_positive_duration env value ≡ ok d) × (pos 0 <ℤ d))
unfolding parse_positive_duration
duration_cases env value = elim (Result-cases (env.parse_duration value)) [
  | inl (e, q) ↦ inl (e, ground arith)
  | inr (d, q) ↦ elim (Bool-cases (leb_ℤ d (pos 0))) [
    | inl low ↦ inl (failed (codes "must be positive"), ground arith)
    | inr high ↦ inr (d, ground arith, ground arith)
  ]
]

resolve_protection_lem :
    (env : Env) (c : Config) {r : Config}
    → resolve_protection env c ≡ ok r
    → SoundProtection r.protection
unfolding resolve_protection
resolve_protection_lem env c h =
    let p = c.protection in
    let window = duration_cases env p.active_window in
    let before = duration_cases env p.time_warning_before in
    let interval = duration_cases env p.time_check_interval in ground arith

resolve_telemetry-protection :
    (env : Env) (c : Config) {r : Config}
    → resolve_telemetry env c ≡ ok r
    → (r.protection ≡ c.protection) × (r.api ≡ c.api)
unfolding resolve_telemetry
resolve_telemetry-protection env c h = ground arith

resolve_audit_lem :
    (env : Env) (c : Config) {r : Config}
    → resolve_audit env c ≡ ok r
    → (r.protection ≡ c.protection)
      × (r.api ≡ c.api)
      × (pos 0 <ℤ r.audit.time_ttl_duration)
      × (pos 0 <ℤ r.audit.body_ttl_duration)
unfolding resolve_audit
resolve_audit_lem env c h =
    let time = duration_cases env c.audit.time_ttl in
    let body = duration_cases env c.audit.body_ttl in ground arith

resolve_files-api :
    (env : Env) (c : Config) {r : Config}
    → resolve_files env c ≡ ok r
    → (r.api ≡ c.api) × (pos 1 ≤ℤ c.api.port) × (c.api.port ≤ℤ pos 65535)
unfolding resolve_files
resolve_files-api env c h = ground arith

resolve_protection-api :
    (env : Env) (c : Config) {r : Config} → resolve_protection env c ≡ ok r → r.api ≡ c.api
unfolding resolve_protection
resolve_protection-api env c h = ground arith

-- What the rest of the program relies on.
pub record Valid (c : Config) : Type 0 where
  pub port_from_one : pos 1 ≤ℤ c.api.port
  pub port_in_range : c.api.port ≤ℤ pos 65535
  pub protection_sound : SoundProtection c.protection
  pub time_ttl_positive : pos 0 <ℤ c.audit.time_ttl_duration
  pub body_ttl_positive : pos 0 <ℤ c.audit.body_ttl_duration

-- Settings that `Resolve` returns have a port from 1 to 65535, positive lifetimes of audit records,
-- at least two messages, a warning with at least one message and fewer than all of them left, a
-- positive window, a positive time of warning shorter than it, a positive interval of checks, a
-- positive length of the queue and a lifetime of queued messages that is the window.
pub resolve-Valid : (env : Env) (c : Config) {r : Config} → resolve env c ≡ ok r → Valid r
unfolding resolve
resolve-Valid env c {r = r} h =
    let (files, (f, h1)) = bind_ok (resolve_files env c) _ h in
    let (protected, (p, h2)) = bind_ok (resolve_protection env files) _ h1 in
    let (observed, (o, h3)) = bind_ok (resolve_telemetry env protected) _ h2 in
    let (audited, (a, h4)) = bind_ok (resolve_audit env observed) _ h3 in
    let same : (r.protection ≡ audited.protection)
        × (r.api ≡ audited.api)
        × (r.audit ≡ audited.audit) =
      ground arith in
    let ports = resolve_files-api env c f in
    let sound = resolve_protection_lem env files p in
    let kept = resolve_protection-api env files p in
    let told = resolve_telemetry-protection env protected o in
    let lives = resolve_audit_lem env observed a in ground arith

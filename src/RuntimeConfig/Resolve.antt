-- ===== src/RuntimeConfig/Resolve.antt =====
-- internal/runtimeconfig/config.go: `Resolve` and what it calls. An error gives no settings.
pub mod Valid
use webot_msg.Common.{
  ◌++◌, ℕ, ◌≡◌, ◌==◌, Bool, true, false, ◌||◌, ◌&&◌, not, Option, none, some, List, [], ◌∷◌,
  if◌then◌else◌, Text, codes, text_eq, is_empty, Error, failed, outer, Result, ok, err, ◌>>=◌, ◌>>◌,
  refuse, or_wrap,
}
use webot_msg.Common.Int.{ℤ, pos, leb_ℤ, ltb_ℤ}
use webot_msg.Common.Strings.{trim_space, trim_right, trim_prefix, has_prefix}
use webot_msg.Strconv.{atoi}
use webot_msg.RuntimeConfig.{
  Config, ApiConfig, StorageConfig, ControlConfig, IlinkConfig, LogConfig, TelemetryConfig,
  AuditConfig, ProtectionConfig, RedisConfig, Url, Env,
}
use webot_msg.RuntimeConfig.Sizes.{parse_size}

abbrev home_joined : Env → Text → Text → Text
home_joined env path home =
    if text_eq path (codes "~") then home else env.join home (trim_prefix path (codes "~/"))

-- A path below `~` is read from the home directory; any other is kept.
unfoldable pub expand_home : Env → Text → Result Text
expand_home env path =
    let expanded = do
      home ← env.user_home_dir
      refuse (is_empty home) (codes "home directory is empty")
      ok (home_joined env path home)
    in if is_empty path
      then ok path
      else if not (text_eq path (codes "~")) && not (has_prefix path (codes "~/"))
      then ok path
      else expanded

abbrev is_slash : ℕ → Bool
is_slash c = c == b'/'

unfoldable pub validate_base_url : Env → Text → Result Text
validate_base_url env text = do
  let value = trim_space text
  refuse (is_empty value) (codes "must not be empty")
  parsed ← env.parse_url value
  refuse (is_empty parsed.scheme || is_empty parsed.host) (codes "must include scheme and host")
  refuse (not (text_eq parsed.scheme (codes "http")) && not (text_eq parsed.scheme (codes "https")))
      (codes "scheme must be http or https")
  ok (trim_right is_slash value)

unfoldable pub port_out_of_range : Option ℤ → Bool
port_out_of_range none = true
port_out_of_range (some port) = ltb_ℤ port (pos 1) || ltb_ℤ (pos 65535) port

abbrev as_error {ℓ} : {A : Type ℓ} → Text → Result A → Result A
as_error text (ok a) = ok a
as_error text (err e) = err (failed text)

unfoldable pub validate_otlp_endpoint : Env → Text → Result (Unit {0})
validate_otlp_endpoint env value = do
  (host, port_text) ← as_error (codes "must be host:port") (env.split_host_port value)
  refuse (is_empty (trim_space host)) (codes "host must not be empty")
  refuse (port_out_of_range (atoi port_text)) (codes "port must be between 1 and 65535")

unfoldable pub validate_redis_url : Env → Text → Text → Result Text
validate_redis_url env text password = do
  let value = trim_space text
  refuse (is_empty value) (codes "redis.url: must not be empty")
  parsed ← as_error (codes "redis.url: invalid URL") (env.parse_url value)
  refuse
      (not (text_eq parsed.scheme (codes "redis")) && not (text_eq parsed.scheme (codes "rediss")))
      (codes "redis.url: scheme must be redis or rediss")
  refuse (is_empty parsed.host) (codes "redis.url: host must not be empty")
  refuse (parsed.has_password && not (is_empty password))
      (codes "redis.password: must not be set when redis.url already contains a password")
  ok (trim_right is_slash value)

unfoldable pub parse_positive_duration : Env → Text → Result ℤ
parse_positive_duration env value = do
  d ← env.parse_duration value
  refuse (leb_ℤ d (pos 0)) (codes "must be positive")
  ok d

unfoldable pub resolve_protection : Env → Config → Result Config
resolve_protection env c = do
  let p = c.protection
  window ← or_wrap (codes "protection.active_window") (parse_positive_duration env p.active_window)
  before ←
      or_wrap (codes "protection.time_warning_before")
        (parse_positive_duration env p.time_warning_before)
  interval ←
      or_wrap (codes "protection.time_check_interval")
        (parse_positive_duration env p.time_check_interval)
  refuse (leb_ℤ window before)
      (codes "protection.time_warning_before: must be shorter than active_window")
  refuse (ltb_ℤ p.message_limit (pos 2)) (codes "protection.message_limit: must be at least 2")
  refuse
      (ltb_ℤ p.message_warning_remaining (pos 1)
        || leb_ℤ p.message_limit p.message_warning_remaining)
      (codes "protection.message_warning_remaining: must be between 1 and message_limit-1")
  refuse (is_empty (trim_space p.reminder_text))
      (codes "protection.reminder_text: must not be empty")
  ok (record c {
    protection = record p {
      active_window_duration = window;
      time_warning_before_duration = before;
      time_check_interval_duration = interval;
      queue_ttl_duration = window;
      queue_max_len = if leb_ℤ p.queue_max_len (pos 0) then pos 1000 else p.queue_max_len;
    };
    redis = record c.redis {
      key_prefix = if is_empty c.redis.key_prefix then codes "webot-msg" else c.redis.key_prefix;
    };
  })

abbrev or_else_text : Text → Text → Text
or_else_text s other = if is_empty s then other else s

abbrev or_empty : Option (List (Text × Text)) → Option (List (Text × Text))
or_empty none = some []
or_empty (some m) = some m

unfoldable pub resolve_telemetry : Env → Config → Result Config
resolve_telemetry env c = do
  let t = c.telemetry
  let endpoint = trim_space t.endpoint
  let protocol = or_else_text (trim_space t.protocol) (codes "grpc")
  refuse (not (text_eq protocol (codes "grpc")) && not (text_eq protocol (codes "http")))
      (codes "telemetry.protocol: must be grpc or http")
  let checked = or_wrap (codes "telemetry.endpoint") (validate_otlp_endpoint env endpoint)
  if is_empty endpoint then ok tt else checked
  ok (record c {
    telemetry = record t {
      endpoint = endpoint;
      protocol = protocol;
      service_name = or_else_text (trim_space t.service_name) (codes "webot-msg");
      headers = or_empty t.headers;
      resource_attributes = or_empty t.resource_attributes;
    };
  })

unfoldable pub resolve_audit : Env → Config → Result Config
resolve_audit env c = do
  time_ttl ← or_wrap (codes "audit.time_ttl") (parse_positive_duration env c.audit.time_ttl)
  body_ttl ← or_wrap (codes "audit.body_ttl") (parse_positive_duration env c.audit.body_ttl)
  ok (record c {
    audit = record c.audit { time_ttl_duration = time_ttl; body_ttl_duration = body_ttl };
  })

-- A path of the settings that has to be there.
unfoldable pub resolve_path : Env → Text → Text → Result Text
resolve_path env label text = do
  path ← or_wrap label (expand_home env text)
  refuse (is_empty path) (label ++ codes ": must not be empty")
  ok path

unfoldable pub resolve_log : Text → LogConfig → Result LogConfig
resolve_log path l = do
  let sized = do
    bytes ← or_wrap (codes "log.max_size") (parse_size l.max_size)
    ok (record l { file_path = path; max_size_bytes = bytes })
  if is_empty path then ok (record l { file_path = path }) else sized

-- `Resolve` up to `resolveProtection`.
unfoldable pub resolve_files : Env → Config → Result Config
resolve_files env c = do
  refuse (ltb_ℤ c.api.port (pos 1) || ltb_ℤ (pos 65535) c.api.port)
      (codes "api.port: must be between 1 and 65535")
  base_url ← or_wrap (codes "ilink.base_url") (validate_base_url env c.ilink.base_url)
  auth_path ← resolve_path env (codes "storage.auth_path") c.storage.auth_path
  socket_path ← resolve_path env (codes "control.socket_path") c.control.socket_path
  log_path ← or_wrap (codes "log.file_path") (expand_home env c.log.file_path)
  log ← resolve_log log_path c.log
  ok (record c {
    ilink = record { base_url = base_url };
    storage = record { auth_path = auth_path };
    control = record { socket_path = socket_path };
    log = log;
  })

unfoldable pub resolve : Env → Config → Result Config
resolve env c = do
  files ← resolve_files env c
  protected ← resolve_protection env files
  observed ← resolve_telemetry env protected
  audited ← resolve_audit env observed
  protection_path ← resolve_path env (codes "protection state path") c.protection_state_path
  audit_path ← resolve_path env (codes "audit state path") c.audit_state_path
  ok (record audited { protection_state_path = protection_path; audit_state_path = audit_path })

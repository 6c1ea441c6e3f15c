-- ===== src/RuntimeConfig.antt =====
-- internal/runtimeconfig/config.go: the settings, as they are written and as they are resolved.
pub mod Sizes
pub mod Resolve
pub mod Storage
use webot_msg.Common.{
  ℕ, Bool, true, false, ◌||◌, not, Option, none, some, List, [], Text, codes, is_empty, Result,
}
use webot_msg.Common.Int.{ℤ, pos, eqb_ℤ}
use webot_msg.Common.Strings.{trim_space}

pub record ApiConfig : Type 0 where
  pub port : ℤ

pub record StorageConfig : Type 0 where
  pub auth_path : Text

pub record ControlConfig : Type 0 where
  pub socket_path : Text

pub record IlinkConfig : Type 0 where
  pub base_url : Text

pub record LogConfig : Type 0 where
  pub file_path : Text
  pub max_size : Text
  pub max_size_bytes : ℤ

-- A map that is nil is none.
pub record TelemetryConfig : Type 0 where
  pub endpoint : Text
  pub protocol : Text
  pub insecure : Bool
  pub service_name : Text
  pub headers : Option (List (Text × Text))
  pub resource_attributes : Option (List (Text × Text))

pub record AuditConfig : Type 0 where
  pub time_ttl : Text
  pub body_ttl : Text
  pub time_ttl_duration : ℤ
  pub body_ttl_duration : ℤ

pub record ProtectionConfig : Type 0 where
  pub enabled : Bool
  pub message_limit : ℤ
  pub message_warning_remaining : ℤ
  pub active_window : Text
  pub time_warning_before : Text
  pub time_check_interval : Text
  pub reminder_text : Text
  pub queue_max_len : ℤ
  pub active_window_duration : ℤ
  pub time_warning_before_duration : ℤ
  pub time_check_interval_duration : ℤ
  pub queue_ttl_duration : ℤ

pub record LegacyProtectionConfig : Type 0 where
  pub enabled : Bool
  pub message_limit : ℤ
  pub message_warning_remaining : ℤ
  pub active_window : Text
  pub time_warning_before : Text
  pub time_check_interval : Text
  pub reminder_text : Text

pub record RedisConfig : Type 0 where
  pub url : Text
  pub password : Text
  pub key_prefix : Text

pub record Config : Type 0 where
  pub api : ApiConfig
  pub storage : StorageConfig
  pub control : ControlConfig
  pub ilink : IlinkConfig
  pub log : LogConfig
  pub telemetry : TelemetryConfig
  pub audit : AuditConfig
  pub audit_state_path : Text
  pub protection : ProtectionConfig
  pub protection_state_path : Text
  pub legacy_protection : LegacyProtectionConfig
  pub redis : RedisConfig

-- `url.Parse`, as far as the settings look at it.
pub record Url : Type 0 where
  pub scheme : Text
  pub host : Text
  pub has_password : Bool

-- What the settings are read with: `os.UserHomeDir`, `filepath.Join`, `filepath.Clean`,
-- `filepath.Dir`, `url.Parse`, `net.SplitHostPort` and `time.ParseDuration` of Go's library.
pub record Env : Type 0 where
  pub user_home_dir : Result Text
  pub join : Text → Text → Text
  pub clean : Text → Text
  pub dir : Text → Text
  pub parse_url : Text → Result Url
  pub split_host_port : Text → Result (Text × Text)
  pub parse_duration : Text → Result ℤ

unfoldable pub has_legacy_protection_settings : Config → Bool
has_legacy_protection_settings c =
    let legacy = c.legacy_protection in
    legacy.enabled
    || not (eqb_ℤ legacy.message_limit (pos 0))
    || not (eqb_ℤ legacy.message_warning_remaining (pos 0))
    || not (is_empty (trim_space legacy.active_window))
    || not (is_empty (trim_space legacy.time_warning_before))
    || not (is_empty (trim_space legacy.time_check_interval))
    || not (is_empty (trim_space legacy.reminder_text))

abbrev pub default_reminder_text : Text
default_reminder_text = codes "webot-msg 保护模式提醒：即将达到微信主动对话限制，请从微信 App 给机器人发一条消息后再继续发送。"

abbrev pub no_legacy : LegacyProtectionConfig
no_legacy = record {
  enabled = false;
  message_limit = pos 0;
  message_warning_remaining = pos 0;
  active_window = [];
  time_warning_before = [];
  time_check_interval = [];
  reminder_text = [];
}

abbrev pub default_protection : ProtectionConfig
default_protection = record {
  enabled = false;
  message_limit = pos 10;
  message_warning_remaining = pos 1;
  active_window = codes "24h";
  time_warning_before = codes "30m";
  time_check_interval = codes "1m";
  reminder_text = default_reminder_text;
  queue_max_len = pos 1000;
  active_window_duration = pos 0;
  time_warning_before_duration = pos 0;
  time_check_interval_duration = pos 0;
  queue_ttl_duration = pos 0;
}

unfoldable pub default_config : Config
default_config = record {
  api = record { port = pos 26322 };
  storage = record { auth_path = codes "~/.webot-msg/config/auth.json" };
  control = record { socket_path = codes "~/.webot-msg/webot-msg.sock" };
  ilink = record { base_url = codes "https://ilinkai.weixin.qq.com" };
  log = record {
    file_path = codes "~/.webot-msg/logs/webot-msg.log";
    max_size = codes "100MB";
    max_size_bytes = pos 0;
  };
  telemetry = record {
    endpoint = [];
    protocol = codes "grpc";
    insecure = false;
    service_name = codes "webot-msg";
    headers = some [];
    resource_attributes = some [];
  };
  audit = record {
    time_ttl = codes "24h";
    body_ttl = codes "24h";
    time_ttl_duration = pos 0;
    body_ttl_duration = pos 0;
  };
  audit_state_path = codes "~/.webot-msg/state/audit.json";
  protection = default_protection;
  protection_state_path = codes "~/.webot-msg/state/protection.json";
  legacy_protection = no_legacy;
  redis = record { url = []; password = []; key_prefix = codes "webot-msg" };
}

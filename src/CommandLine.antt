-- ===== src/CommandLine.antt =====
-- cmd/webot-msg/main.go: how the resolved settings reach the guard and the audit.
pub mod Wiring
use webot_msg.Common.{Text, codes, if◌then◌else◌, []}
use webot_msg.RuntimeConfig.{Config, has_legacy_protection_settings}
use webot_msg.Protection.RuntimeGuard
use webot_msg.Audit

-- `ProtectionConfig` of the options of the app.
unfoldable pub protection_options : Config → RuntimeGuard.EnableConfig
protection_options resolved = record {
  redis_url = resolved.redis.url;
  redis_password = resolved.redis.password;
  key_prefix = resolved.redis.key_prefix;
  message_limit = resolved.protection.message_limit;
  message_warning_remaining = resolved.protection.message_warning_remaining;
  active_window = resolved.protection.active_window_duration;
  time_warning_before = resolved.protection.time_warning_before_duration;
  queue_max_len = resolved.protection.queue_max_len;
  queue_ttl = resolved.protection.queue_ttl_duration;
}

-- `AuditConfig` of the options of the app.
unfoldable pub audit_options : Config → Audit.EnableConfig
audit_options resolved = record {
  redis_url = resolved.redis.url;
  redis_password = resolved.redis.password;
  key_prefix = resolved.redis.key_prefix;
  time_ttl = resolved.audit.time_ttl_duration;
  body_ttl = resolved.audit.body_ttl_duration;
}

unfoldable pub legacy_protection_warning : Config → Text
legacy_protection_warning cfg =
    if has_legacy_protection_settings cfg
    then codes
        "legacy [protection] config is ignored; configure [redis] and run /protection enable once in the console"
    else []

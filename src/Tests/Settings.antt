-- ===== src/Tests/Settings.antt =====
-- The default settings resolve.
use webot_msg.Common.{
  arith, ◌++◌, ◌∷◌, refl, Text, codes, text_eq, is_empty, failed, Result, ok, err, if◌then◌else◌,
  false,
}
use webot_msg.Common.Int.{ℤ, pos, int64, ◌*ℤ◌}
use webot_msg.Common.Strings.{
  is_space, trim_left, trim_right, trim_space, has_prefix, drop_length, trim_prefix, to_upper,
}
use webot_msg.Strconv.{atoi}
use webot_msg.RuntimeConfig.{Env, Config, default_config}
use webot_msg.RuntimeConfig.Sizes.{
  Size, is_digit, leading_digits, after_digits, parse_int, multiplier, unit_of, times, parse_size,
  parse_size_lem,
}
use webot_msg.RuntimeConfig.Resolve.{
  expand_home, validate_base_url, parse_positive_duration, resolve_protection, resolve_telemetry,
  resolve_audit, resolve_path, resolve_log, resolve_files, resolve,
}
use webot_msg.Protection.RuntimeGuard.{guard_config}
use webot_msg.CommandLine.{protection_options, audit_options}
use webot_msg.CommandLine.Wiring.{Wired, resolve-Wired}

abbrev durations : Text → Result ℤ
durations text =
    if text_eq text (codes "24h")
    then ok (pos 86400000000000)
    else if text_eq text (codes "30m")
    then ok (pos 1800000000000)
    else if text_eq text (codes "1m")
    then ok (pos 60000000000)
    else err (failed (codes "time: invalid duration"))

abbrev env : Env
env = record {
  user_home_dir = ok (codes "/home/u");
  join = λ a b. a ++ (b'/' ∷ b);
  clean = λ p. p;
  dir = λ p. p;
  parse_url = λ u. ok (record { scheme = codes "https"; host = codes "h"; has_password = false });
  split_host_port = λ a. err (failed (codes "missing port in address"));
  parse_duration = durations;
}

abbrev settings_of : Result Config → Config
settings_of (ok c) = c
settings_of (err e) = default_config

parse_size_lem_example : Size (trim_space (codes " 100 mb")) (pos 104857600)
unfolding parse_size is_digit leading_digits after_digits parse_int multiplier unit_of times
    is_space trim_left trim_right trim_space to_upper atoi int64 ◌*ℤ◌ text_eq is_empty
parse_size_lem_example = parse_size_lem (codes " 100 mb") refl

abbrev resolved : Config
resolved = settings_of (resolve env default_config)

resolve-Wired_example :
    Wired resolved (guard_config (protection_options resolved)) (audit_options resolved)
unfolding default_config resolve resolve_files resolve_protection resolve_telemetry resolve_audit
    resolve_path resolve_log expand_home validate_base_url parse_positive_duration parse_size
    is_digit leading_digits after_digits parse_int multiplier unit_of times is_space trim_left
    trim_right trim_space has_prefix drop_length trim_prefix to_upper atoi int64 ◌*ℤ◌ text_eq
    is_empty
resolve-Wired_example = resolve-Wired env default_config refl (omega arith, omega arith)

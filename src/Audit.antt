-- ===== src/Audit.antt =====
-- internal/audit/audit.go: the recorder of sent messages in Redis. Tracing is left out, and so are
-- the answers of a recorder that is nil.
pub mod StateStore
pub mod Recording
use webot_msg.Common.{
  Bool, true, false, Option, none, some, List, [], ◌∷◌, ◌++◌, ℕ, ◌/◌, if◌then◌else◌, Text, codes,
  is_empty, Error, failed, Result, ok, err,
}
use webot_msg.Common.Int.{ℤ, pos, negsuc, leb_ℤ}
use webot_msg.Common.Strings.{trim_space}
use webot_msg.Strconv.{itoa}

pub record RecordInput : Type 0 where
  pub id : Text
  pub sent_at : ℤ
  pub body : Text

pub record EnableConfig : Type 0 where
  pub redis_url : Text
  pub redis_password : Text
  pub key_prefix : Text
  pub time_ttl : ℤ
  pub body_ttl : ℤ

pub record Recorder : Type 0 where
  pub client : Option ℕ
  pub cfg : EnableConfig

abbrev pub no_config : EnableConfig
no_config = record {
  redis_url = [];
  redis_password = [];
  key_prefix = [];
  time_ttl = pos 0;
  body_ttl = pos 0;
}

abbrev pub new_recorder : Recorder
new_recorder = record { client = none; cfg = no_config }

-- A SET with an expiry.
pub record Set : Type 0 where
  pub key : Text
  pub value : Text
  pub ttl : ℤ

-- The Redis clients, by number: `protection.NewRedisClient`, `Ping`, `Close` and `Pipelined`.
pub record Clients (W : Type 0) : Type 0 where
  pub new_redis_client : Text → Text → W → Result ℕ × W
  pub ping : ℕ → W → Result (Unit {0}) × W
  pub close : ℕ → W → W
  pub pipelined : ℕ → List Set → W → Result (Unit {0}) × W

unfoldable pub audit_time_key : Text → Text → Text
audit_time_key prefix id = prefix ++ (codes ":audit:time:" ++ id)

unfoldable pub audit_body_key : Text → Text → Text
audit_body_key prefix id = prefix ++ (codes ":audit:body:" ++ id)

unfoldable pub enabled : Recorder → Bool
enabled r = elim r.client [ none ↦ false | some c ↦ true ]

-- Numbers of nanoseconds since 1970; `UnixMilli` goes down to a whole millisecond.
unfoldable pub unix_milli : ℤ → ℤ
unix_milli (pos n) = pos (n / 1000000)
unix_milli (negsuc n) = negsuc (n / 1000000)

unfoldable pub time_key : Recorder → Text → Text
time_key r id = audit_time_key r.cfg.key_prefix id

unfoldable pub body_key : Recorder → Text → Text
body_key r id = audit_body_key r.cfg.key_prefix id

module _ {W : Type 0} (redis : Clients W) where
  abbrev pub close_old : Option ℕ → W → W
  close_old none w = w
  close_old (some c) w = redis.close c w

  unfoldable pub installed :
      EnableConfig → Recorder → ℕ → Result (Unit {0}) × W → Option Error × (Recorder × W)
  installed cfg r c (err e, w) = (some e, (r, redis.close c w))
  installed cfg r c (ok done, w) =
      (none, (record { client = some c; cfg = cfg }, close_old r.client w))

  unfoldable pub with_client :
      EnableConfig → Recorder → Result ℕ × W → Option Error × (Recorder × W)
  unfolding installed
  with_client cfg r (err e, w) = (some e, (r, w))
  with_client cfg r (ok c, w) = installed cfg r c (redis.ping c w)

  unfoldable pub enable_audit : EnableConfig → Recorder → W → Option Error × (Recorder × W)
  unfolding with_client
  enable_audit given r w =
      let cfg = record given { key_prefix = trim_space given.key_prefix } in
      if leb_ℤ given.time_ttl (pos 0)
      then (some (failed (codes "audit.time_ttl: must be positive")), (r, w))
      else if leb_ℤ given.body_ttl (pos 0)
      then (some (failed (codes "audit.body_ttl: must be positive")), (r, w))
      else if is_empty cfg.key_prefix
      then (some (failed (codes "audit key prefix: must not be empty")), (r, w))
      else with_client cfg r (redis.new_redis_client cfg.redis_url cfg.redis_password w)

  unfoldable pub disable_audit : Recorder → W → Recorder × W
  disable_audit r w = (new_recorder, close_old r.client w)

  record_with : Option ℕ → EnableConfig → RecordInput → W → Result (Unit {0}) × W
  record_with none cfg input w = (ok tt, w)
  record_with (some c) cfg input w =
      redis.pipelined c
        (record {
          key = audit_time_key cfg.key_prefix input.id;
          value = itoa (unix_milli input.sent_at);
          ttl = cfg.time_ttl;
        }
          ∷ record {
            key = audit_body_key cfg.key_prefix input.id;
            value = input.body;
            ttl = cfg.body_ttl;
          }
          ∷ [])
        w

  unfoldable pub record_message : Recorder → RecordInput → W → Result (Unit {0}) × W
  unfolding record_with
  record_message r input w = record_with r.client r.cfg input w

-- ===== src/Tests/Files.antt =====
-- A log of eight bytes, a flag in its file, and the audit.
use webot_msg.Common.{
  ◌≡◌, ◌≢◌, refl, Bool, true, false, none, some, [], ◌∷◌, arith, Text, codes, failed, Result, ok,
  err, if◌then◌else◌, text_eq,
}
use webot_msg.Common.Int.{pos}
use webot_msg.Logfile
use webot_msg.Logfile.{SizeWriter}
use webot_msg.Logfile.Bounds.{Bounded, write_all, write_all-Bounded}
use webot_msg.Persist
use webot_msg.Persist.{StateCodec, write_temp, fill_temp, save_state, load_state}
use webot_msg.Persist.Atomic.{Atomic, save_state-Atomic, load_state-save_state}
use webot_msg.Audit.{
  EnableConfig, Clients, new_recorder, enable_audit, audit_time_key, audit_body_key,
}
use webot_msg.Audit.Recording.{Enabling, enable_audit-Enabling, audit_keys_disjoint}
use webot_msg.Protection.Keys.{state_key, active_key, queue_key}
use webot_msg.Tests.Setup.{bot}

abbrev log_disk : Logfile.Disk
log_disk = record {
  log = some (codes "abcdef");
  backup = none;
  fates =
      none
      ∷ none
      ∷ some (record { error = failed (codes "no space left"); bytes_written = 0 })
      ∷ [];
}

abbrev writer : SizeWriter
writer = record { max_bytes = pos 8; file = true; size = pos 6 }

writer-Bounded : Bounded 8 writer log_disk
writer-Bounded = record { within = omega arith; tracked = λ o. refl; limit = omega arith }

write_all-Bounded_example :
    let out = write_all (codes "ghi" ∷ codes "jk" ∷ []) writer log_disk in Bounded 8 out.0 out.1
write_all-Bounded_example =
    write_all-Bounded 8 (codes "ghi" ∷ codes "jk" ∷ []) writer log_disk writer-Bounded
      (omega arith, (omega arith, tt)) (omega arith)

flag_text : Bool → Text
flag_text true = b'1' ∷ []
flag_text false = b'0' ∷ []

read_flag : Text → Result Bool
read_flag s = if text_eq s (b'1' ∷ []) then ok true else ok false

read_flag_text : (flag : Bool) → read_flag (flag_text flag) ≡ ok flag
unfolding read_flag flag_text text_eq
read_flag_text true = refl
read_flag_text false = refl

abbrev flags : StateCodec
flags = record { marshal = flag_text; unmarshal = read_flag; unmarshal-marshal = read_flag_text }

-- The directory cannot be made.
abbrev full_disk : Persist.Disk
full_disk = record {
  file = none;
  temp = none;
  fates = some (record { error = failed (codes "permission denied"); bytes_written = 0 }) ∷ [];
}

save_state-Atomic_example : Atomic (codes "on") full_disk (save_state (codes "on") full_disk)
save_state-Atomic_example = save_state-Atomic (codes "on") full_disk

abbrev good_disk : Persist.Disk
good_disk = record full_disk { fates = [] }

load_state-save_state_example :
    (load_state flags (codes "decode") (save_state (flags.marshal true) good_disk).1).0 ≡ ok true
unfolding save_state fill_temp write_temp
load_state-save_state_example =
    load_state-save_state flags (codes "decode") true good_disk refl refl

audit_keys_disjoint_example :
    (audit_time_key (codes "w") (codes "1") ≡ audit_time_key (codes "w") (codes "2")
      → codes "1" ≡ codes "2")
    × (audit_body_key (codes "w") (codes "1") ≡ audit_body_key (codes "w") (codes "2")
        → codes "1" ≡ codes "2")
    × (audit_time_key (codes "w") (codes "1") ≢ audit_body_key (codes "w") (codes "2"))
    × (audit_time_key (codes "w") (codes "1") ≢ state_key (codes "w") bot)
    × (audit_time_key (codes "w") (codes "1") ≢ active_key (codes "w") bot)
    × (audit_time_key (codes "w") (codes "1") ≢ queue_key (codes "w") bot)
    × (audit_body_key (codes "w") (codes "1") ≢ state_key (codes "w") bot)
    × (audit_body_key (codes "w") (codes "1") ≢ active_key (codes "w") bot)
    × (audit_body_key (codes "w") (codes "1") ≢ queue_key (codes "w") bot)
audit_keys_disjoint_example = audit_keys_disjoint (codes "w") (codes "1") (codes "2") bot

abbrev no_redis : Clients (Unit {0})
no_redis = record {
  new_redis_client = λ url password w. (ok 1, w);
  ping = λ c w. (err (failed (codes "connection refused")), w);
  close = λ c w. w;
  pipelined = λ c sets w. (ok tt, w);
}

abbrev audit_config : EnableConfig
audit_config = record {
  redis_url = codes "redis://h";
  redis_password = [];
  key_prefix = codes "webot";
  time_ttl = pos 1000;
  body_ttl = pos 1000;
}

enable_audit-Enabling_example :
    Enabling no_redis audit_config new_recorder tt
      (enable_audit no_redis audit_config new_recorder tt)
enable_audit-Enabling_example = enable_audit-Enabling no_redis audit_config new_recorder tt

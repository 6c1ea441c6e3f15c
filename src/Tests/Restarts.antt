-- ===== src/Tests/Restarts.antt =====
-- The protection is switched on and off, and the program restarted.
use webot_msg.Common.{
  ◌≡◌, refl, Bool, true, false, some, none, [], ◌∷◌, Text, codes, text_eq, Result, ok,
  if◌then◌else◌,
}
use webot_msg.Common.Int.{pos}
use webot_msg.Persist.{Disk, StateCodec}
use webot_msg.Protection.RuntimeGuard.{
  EnableConfig, GuardGeneration, RuntimeGuard, enable, dialled, pinged, new_runtime_guard,
  guard_config,
}
use webot_msg.App.Drainers.{SendQueueDrainer, no_drainers}
use webot_msg.App.Switches.{App, Settings, enable_protection, restore_protection_state}
use webot_msg.App.Switches.Restoring.{GuardsSends, restore-enable_protection}

abbrev protection : EnableConfig
protection = record {
  redis_url = codes "redis://h";
  redis_password = [];
  key_prefix = codes "webot";
  message_limit = pos 10;
  message_warning_remaining = pos 1;
  active_window = pos 1000;
  time_warning_before = pos 10;
  queue_max_len = pos 3;
  queue_ttl = pos 1000;
}

flag_text : Bool → Text
flag_text true = b'1' ∷ []
flag_text false = b'0' ∷ []

read_flag : Text → Result Bool
read_flag s = if text_eq s (b'1' ∷ []) then ok true else ok false

read_flag_text : (flag : Bool) → read_flag (flag_text flag) ≡ ok flag
unfolding read_flag flag_text text_eq
read_flag_text true = refl
read_flag_text false = refl

abbrev flags : StateCodec
flags = record { marshal = flag_text; unmarshal = read_flag; unmarshal-marshal = read_flag_text }

abbrev settings : Settings
settings = record {
  dialer = record { dial = λ url password. none; ping = λ c. none };
  protection_config = protection;
  codec = flags;
  outside = λ n. [];
}

abbrev no_generation : GuardGeneration
no_generation = record {
  guard = record { client = 0; config = guard_config protection };
  client = none;
  refs = 0;
  retired = false;
}

abbrev guard : RuntimeGuard
guard = new_runtime_guard no_generation (record { generation = 0; finished = false })

abbrev idle : SendQueueDrainer
idle = record { owner = []; rerun = false; cancelled = false; draining = false }

abbrev empty_disk : Disk
empty_disk = record { file = none; temp = none; fates = [] }

abbrev app : App
app = record {
  store = record { bots = []; file = none; writes = [] };
  guard = some guard;
  protection_enabled = false;
  checkers = λ bot. false;
  drainers = no_drainers idle;
  state_disk = some empty_disk;
  printed = [];
}

abbrev restarted : App → App
restarted before = record app { state_disk = before.state_disk }

dials : (enable settings.dialer settings.protection_config guard).0 ≡ none
unfolding enable dialled pinged
dials = refl

restore-enable_protection_example :
    GuardsSends protection
      (restore_protection_state settings true (restarted (enable_protection settings app).1))
restore-enable_protection_example =
    restore-enable_protection settings true app (restarted (enable_protection settings app).1) guard
      guard empty_disk refl refl refl dials refl refl dials

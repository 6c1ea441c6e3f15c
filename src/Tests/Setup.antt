-- ===== src/Tests/Setup.antt =====
-- A database in memory, a guard of eight messages, and a bot in an open conversation.
use webot_msg.Common.{
  ◌≡◌, refl, false, Option, none, some, [], ◌∷◌, arith, if◌then◌else◌, ◌==◌, Text, codes, ok,
  text_eq,
}
use webot_msg.Common.Int.{ℤ, pos, negsuc, leb_ℤ, int64, ◌-ℤ◌, quot}
use webot_msg.Config.{UserConfig}
use webot_msg.Redis.Memory.{Memory, empty, memory}
use webot_msg.Strconv.{itoa}
use webot_msg.Protection.Policy.{BotState, unlocked, locked}
use webot_msg.Protection.Policy.Steps.{WithinBudget}
use webot_msg.Protection.Scripts.{is_set, reason_of, reason_time}
use webot_msg.Protection.RedisGuard.{
  RedisGuardConfig, PayloadCodec, Server, limits, threshold, milliseconds,
}
use webot_msg.Protection.RedisGuard.Correct.{Holds}
use webot_msg.Sender.World.{World}

abbrev pub config : RedisGuardConfig
config = record {
  key_prefix = codes "webot";
  message_limit = pos 10;
  message_warning_remaining = pos 2;
  active_window = pos 86400000000000;
  time_warning_before = pos 600000000000;
  queue_max_len = pos 3;
  queue_ttl = pos 86400000000000;
}

abbrev pub bot : Text
bot = codes "b1"

-- An hour of the conversation is left.
abbrev pub open_db : Memory
open_db = record empty { expiry = λ k. pos 3600000 }

abbrev pub server : Server memory
server = record { db = open_db; fates = []; now_ms = pos 1000 }

abbrev pub open_bot : BotState
open_bot = record { lock = unlocked; count = 0; window = pos 3600000; queue = [] }

pub open_bot-Holds : Holds memory config bot server open_bot
unfolding is_set reason_of text_eq itoa
open_bot-Holds = record {
  frozen_as = refl;
  reason_as = refl;
  pending_as = refl;
  count_as = refl;
  window_as = refl;
  queue_as = refl;
}

pub open_bot-WithinBudget : WithinBudget (limits config) open_bot
unfolding threshold int64 ◌-ℤ◌
open_bot-WithinBudget = record {
  open_below = λ e. omega arith;
  due_within = λ e. omega arith;
  queue_fits = omega arith;
}

read_payload : Text → Option (Text × ℤ)
read_payload [] = none
read_payload (c ∷ []) = none
read_payload (c ∷ (n ∷ text)) = some (text, if c == 0 then pos n else negsuc n)

write_payload : Text → ℤ → Text
write_payload text (pos n) = 0 ∷ (n ∷ text)
write_payload text (negsuc n) = 1 ∷ (n ∷ text)

read_write : (text : Text) (ms : ℤ) → read_payload (write_payload text ms) ≡ some (text, ms)
unfolding read_payload write_payload
read_write text (pos n) = refl
read_write text (negsuc n) = refl

pub codec : PayloadCodec
codec = record { marshal = write_payload; unmarshal = read_payload; unmarshal-marshal = read_write }

pub long_ttl : leb_ℤ (milliseconds config.queue_ttl) (pos 0) ≡ false
unfolding milliseconds quot
long_ttl = refl

pub long_window : leb_ℤ (milliseconds config.active_window) (pos 0) ≡ false
unfolding milliseconds quot
long_window = refl

abbrev pub user : UserConfig
user = record {
  bot_token = codes "t";
  bot_id = bot;
  get_updates_buf = [];
  ilink_user_id = codes "u1";
  context_token = codes "c1";
  api_token = codes "a";
}

abbrev pub world : World memory
world = record {
  server = server;
  outbox = [];
  wire = [];
  ids = λ n. ok (b'#' ∷ []);
  drawn = 0;
  audits = [];
}

-- The eighth message is the last before the lock.
abbrev pub last_bot : BotState
last_bot = record open_bot { count = 7 }

abbrev pub last_db : Memory
last_db = record open_db {
  hash = λ k f. if text_eq f (codes "out_count") then some (codes "7") else none;
}

abbrev pub last_server : Server memory
last_server = record server { db = last_db }

pub last_bot-Holds : Holds memory config bot last_server last_bot
unfolding is_set reason_of text_eq itoa
last_bot-Holds = record {
  frozen_as = refl;
  reason_as = refl;
  pending_as = refl;
  count_as = refl;
  window_as = refl;
  queue_as = refl;
}

-- A bot that is locked for the time, with the reminder sent.
abbrev pub late_db : Memory
late_db = record open_db {
  hash = λ k f.
      if text_eq f (codes "frozen")
      then some (codes "1")
      else if text_eq f (codes "reason")
      then some (codes "time")
      else none;
}

abbrev pub late_server : Server memory
late_server = record server { db = late_db }

abbrev pub late_bot : BotState
late_bot = record open_bot { lock = locked reason_time false }

pub late_bot-Holds : Holds memory config bot late_server late_bot
unfolding is_set reason_of text_eq itoa
late_bot-Holds = record {
  frozen_as = refl;
  reason_as = refl;
  pending_as = refl;
  count_as = refl;
  window_as = refl;
  queue_as = refl;
}

-- ===== src/Tests/Backlogs.antt =====
-- Two messages wait when the conversation opens again.
use webot_msg.Common.{Text, ◌≡◌, refl, List, [], ◌∷◌, ◌++◌, codes, arith, text_eq, is_empty}
use webot_msg.Common.Int.{ℤ, pos, ◌*ℤ◌, ◌-ℤ◌, int64, quot}
use webot_msg.Redis.Memory.{memory}
use webot_msg.Protection.Policy.{BotState}
use webot_msg.Protection.Scripts.{is_set, reason_of, no_window}
use webot_msg.Protection.RedisGuard.{Server, threshold, milliseconds}
use webot_msg.Protection.RedisGuard.Correct.{Holds}
use webot_msg.Strconv.{itoa}
use webot_msg.Sender.World.{World}
use webot_msg.App.SendQueue.{drain_send_queue, queue_empty, payload_expired, time_sub}
use webot_msg.App.SendQueue.Rounds.{Settings, replay}
use webot_msg.App.SendQueue.Draining.{drains_whole_queue, stored, replayed, Clear}
use webot_msg.Tests.Setup.{config, bot, open_db, server, open_bot, codec, user, world}

abbrev settings : Settings
settings = record {
  format_time = λ ms. codes "noon";
  ttl = pos 86400000000000;
  reminder_text = codes "answer!";
}

abbrev backlog : List (Text × ℤ)
backlog = (codes "one", pos 1) ∷ (codes "two", pos 2) ∷ []

abbrev backlog_server : Server memory
backlog_server = record server {
  db = record open_db {
    list = λ k. stored memory codec config user settings (λ i. codes "#") backlog;
  };
}

abbrev backlog_bot : BotState
backlog_bot = record open_bot {
  queue = stored memory codec config user settings (λ i. codes "#") backlog;
}

abbrev backlog_world : World memory
backlog_world = record world { server = backlog_server }

backlog-Holds : Holds memory config bot backlog_server backlog_bot
unfolding is_set reason_of text_eq itoa
backlog-Holds = record {
  frozen_as = refl;
  reason_as = refl;
  pending_as = refl;
  count_as = refl;
  window_as = refl;
  queue_as = refl;
}

backlog-Clear : Clear memory codec config user settings (λ i. codes "#") backlog_world
backlog-Clear = record { live = refl; clear = refl; named = λ i. refl }

drains_whole_queue_example :
    let out = drain_send_queue (replay memory codec config user settings) bot 3 backlog_world in
    (out.0 ≡ queue_empty)
    × (out.1.outbox
        ≡ []
          ++ replayed memory codec config user settings (λ i. codes "#") backlog 0 0 (pos 3600000))
    × Holds memory config bot out.1.server (record backlog_bot { queue = []; count = 2 })
unfolding is_empty no_window payload_expired time_sub threshold milliseconds int64 quot ◌-ℤ◌ ◌*ℤ◌
drains_whole_queue_example =
    drains_whole_queue memory codec config user settings (λ i. codes "#") backlog 3 backlog_world
      backlog_bot (λ i. refl) refl refl backlog-Clear backlog-Holds refl (refl, (refl, tt)) refl
      refl refl (omega arith) (omega arith) (omega arith) (omega arith)

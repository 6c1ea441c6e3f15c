-- ===== src/Tests/Polls.antt =====
-- A poll with two messages, and a line that is completed.
use webot_msg.Common.{
  ◌+◌, ◌≡◌, refl, some, none, [], ◌∷◌, ◌++◌, arith, Text, codes, text_eq, is_empty, take, drop,
  length,
}
use webot_msg.Common.Int.{pos}
use webot_msg.Config.Store.{Store, lookup, get_bot}
use webot_msg.Redis.Memory.{memory}
use webot_msg.Protection.Policy
use webot_msg.Protection.RedisGuard.{milliseconds}
use webot_msg.Protection.RedisGuard.Correct.{Holds}
use webot_msg.Sender.World.{World, world_guard}
use webot_msg.App.Updates.{UpdatesResponse, opens_conversation, any_opens, persist_update_state}
use webot_msg.App.Updates.Activity.{last_opening, with_buf, get_bot-persist_update_state}
use webot_msg.App.Updates.Unlocking.{reopened, persist_update_state-opens}
use webot_msg.Console.{complete_command_line}
use webot_msg.Console.Completion.{complete_command_line-Inserts}
use webot_msg.Tests.Setup.{
  config, bot, late_server, late_bot, late_bot-Holds, long_window, user, world,
}

abbrev store : Store
store = record { bots = (bot, some user) ∷ []; file = none; writes = [] }

abbrev poll : UpdatesResponse
poll = record {
  get_updates_buf = codes "next";
  msgs =
      record { from_user_id = codes "u2"; context_token = codes "c2" }
      ∷ record { from_user_id = codes "u3"; context_token = [] }
      ∷ [];
}

stored : get_bot bot store ≡ some user
unfolding get_bot lookup text_eq
stored = refl

abbrev keep : Text → World memory → World memory
keep id w = w

get_bot-persist_update_state_example :
    get_bot bot (persist_update_state (world_guard memory config) keep bot poll store world).0
    ≡ some (last_opening poll.msgs (with_buf (codes "next") user))
get_bot-persist_update_state_example =
    get_bot-persist_update_state (world_guard memory config) keep bot poll user store world stored

abbrev late_world : World memory
late_world = record world { server = late_server }

persist_update_state-opens_example :
    ((persist_update_state (world_guard memory config) keep bot poll store late_world).1
      ≡ keep bot (reopened memory config keep bot late_world))
    × Holds memory config bot
        (reopened memory config keep bot late_world).server
        (Policy.activate (milliseconds config.active_window) late_bot)
unfolding any_opens opens_conversation is_empty
persist_update_state-opens_example =
    persist_update_state-opens memory config keep bot poll user store late_world late_bot stored
      refl refl late_bot-Holds long_window

complete_command_line-Inserts_example :
    (more : Text) × ((complete_command_line (codes "/prot x") (pos 5)).0
      ≡ take (codes "/prot x") 5 ++ (more ++ drop (codes "/prot x") 5))
    × ((complete_command_line (codes "/prot x") (pos 5)).1 ≡ pos (5 + length more))
complete_command_line-Inserts_example =
    complete_command_line-Inserts (codes "/prot x") 5 (omega arith)

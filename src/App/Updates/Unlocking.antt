-- ===== src/App/Updates/Unlocking.antt =====
-- A message from the user opens the bot again, from the poll down to the database.
use webot_msg.Common.{◌≡◌, true, false, some, Text}
use webot_msg.Common.Int.{pos, leb_ℤ}
use webot_msg.Config.{UserConfig}
use webot_msg.Config.Store.{Store, get_bot}
use webot_msg.Redis.{Redis}
use webot_msg.Protection.Policy.{BotState}
use webot_msg.Protection.Policy
use webot_msg.Protection.RedisGuard
use webot_msg.Protection.RedisGuard.{RedisGuardConfig, milliseconds}
use webot_msg.Protection.RedisGuard.Answers.{answers}
use webot_msg.Protection.RedisGuard.Correct.{Holds}
use webot_msg.Protection.RedisGuard.Conversation.{record_active_conversation_correct}
use webot_msg.Sender.World.{World, world_guard}
use webot_msg.App.Updates.{UpdatesResponse, any_opens, recorded, persist_update_state}

module _ (r : Redis) (g : RedisGuardConfig) (start : Text → World r → World r) (bot : Text) where
  -- The world once the guard has recorded the conversation.
  abbrev pub reopened : World r → World r
  reopened w = record w { server = (RedisGuard.record_active_conversation r g bot w.server).1 }

  -- A poll with a message that has a writer and a context, for a bot of the store, opens the bot in
  -- the database, if the command is answered and the window is at least a millisecond: it is not
  -- locked, has sent nothing, has the whole window ahead and its queue as it was; and the loop that
  -- drains the queue is started in that state.
  pub persist_update_state-opens :
      (res : UpdatesResponse) (user : UserConfig) (s : Store) (w : World r) (b : BotState)
      → get_bot bot s ≡ some user
      → any_opens res.msgs ≡ true
      → answers w.server.fates ≡ true
      → Holds r g bot w.server b
      → leb_ℤ (milliseconds g.active_window) (pos 0) ≡ false
      → ((persist_update_state (world_guard r g) start bot res s w).1 ≡ start bot (reopened w))
        × Holds r g bot (reopened w).server (Policy.activate (milliseconds g.active_window) b)
  unfolding persist_update_state recorded
  persist_update_state-opens res user s w b found opens live h long =
      let (done, kept) = record_active_conversation_correct r g bot w.server b live h long in
      (simp (found, opens, done), kept)

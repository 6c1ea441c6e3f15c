-- ===== src/Config.antt =====
-- internal/config: the bots that are logged in.
pub mod Store
pub mod Bots
pub mod Tokens
use webot_msg.Common.{Text}

pub record UserConfig : Type 0 where
  pub bot_token : Text
  pub bot_id : Text
  pub get_updates_buf : Text
  pub ilink_user_id : Text
  pub context_token : Text
  pub api_token : Text

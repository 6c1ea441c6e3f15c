-- ===== src/Tests/Requests.antt =====
-- A request without a token.
use webot_msg.Common.{[], ok, err, failed, some, codes}
use webot_msg.Redis.Memory.{memory}
use webot_msg.Sender.World.{World, services}
use webot_msg.Api.{Request, Server, handle_bot_action}
use webot_msg.Api.Access.{Checked, handle_bot_action-Checked}
use webot_msg.Tests.Setup.{config, codec, user, world}

abbrev api : Server (World memory)
api = record {
  services = services memory codec config;
  get_bot = λ id w. some user;
  send_typing = λ u n w. (ok tt, w);
  unmarshal = λ body. err (failed (codes "unexpected end of JSON input"));
  error_of_library = λ n. codes "error";
  reminder_text = codes "answer!";
}

abbrev request : Request
request = record {
  url_path = codes "/bots/b1/messages";
  authorization = [];
  content_type = codes "application/x-www-form-urlencoded";
  body = ok [];
  multipart_form = ok tt;
  form = ok tt;
  form_value = λ key. [];
}

handle_bot_action-Checked_example : Checked api request world (handle_bot_action api request world)
handle_bot_action-Checked_example = handle_bot_action-Checked api request world

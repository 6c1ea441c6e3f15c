-- ===== src/Tests/Logins.antt =====
-- Two bots in the store: one has a token, the other is given one.
use webot_msg.App.Commands.{select_bot}
use webot_msg.App.Commands.Numbers.{select_bot-delete_bot_by_index}
use webot_msg.Common.{
  ◌≡◌, refl, false, true, arith, none, some, [], ◌∷◌, Text, codes, Result, ok, outer, text_eq,
  is_empty,
}
use webot_msg.Common.Int.{pos}
use webot_msg.Config.{UserConfig}
use webot_msg.Config.Store.{
  Store, write_failed, lookup, get_bot, add_bot, delete_bot_by_index, valid_bot_ids, valid_keys,
  give_tokens, ensure_api_tokens,
}
use webot_msg.Config.Bots.{get_bot-add_bot, delete_bot_by_index_lem}
use webot_msg.Config.Tokens.{tokens_set, ensure_api_tokens_lem}

abbrev user : Text → Text → UserConfig
user id token = record {
  bot_token = codes "secret";
  bot_id = id;
  get_updates_buf = [];
  ilink_user_id = codes "friend";
  context_token = [];
  api_token = token;
}

abbrev store : Store
store = record {
  bots =
      (codes "zed", some (user (codes "zed") []))
      ∷ (codes "amy", some (user (codes "amy") (codes "t")))
      ∷ [];
  file = none;
  writes = write_failed (outer 1) ∷ [];
}

get_bot-add_bot_example :
    get_bot (codes "zed") (add_bot (user (codes "zed") (codes "new")) store).1
    ≡ some (user (codes "zed") (codes "new"))
unfolding text_eq
get_bot-add_bot_example = get_bot-add_bot (user (codes "zed") (codes "new")) (codes "zed") store

delete_bot_by_index_lem_example : get_bot (codes "amy") (delete_bot_by_index (pos 1) store).1 ≡ none
unfolding text_eq lookup valid_bot_ids valid_keys is_empty
delete_bot_by_index_lem_example =
    (delete_bot_by_index_lem 0 (codes "amy") (codes "amy") store (refl, (refl, tt)) refl).1

abbrev one_token : Unit {0} → Result Text × Unit {0}
one_token w = (ok (codes "fresh"), w)

is_empty_full : (w : Unit {0}) (t : Text) → (one_token w).0 ≡ ok t → is_empty t ≡ false
unfolding is_empty
is_empty_full w t e = ground arith

ensure_api_tokens_lem_example : tokens_set (ensure_api_tokens one_token store tt).1.0.bots ≡ true
unfolding give_tokens is_empty
ensure_api_tokens_lem_example = ensure_api_tokens_lem one_token is_empty_full store tt refl

select_bot-delete_bot_by_index_example :
    select_bot (pos 2) store ≡ (delete_bot_by_index (pos 2) store).0.0
select_bot-delete_bot_by_index_example = select_bot-delete_bot_by_index (pos 2) store

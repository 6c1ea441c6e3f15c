-- ===== src/Api/Access.antt =====
-- Who may act for a bot.
use webot_msg.Common.{
  ◌≡◌, refl, ◌≤◌, ◌⊎◌, inl, inr, false, Option, none, some, List, [], ◌∷◌, Text, codes, text_eq,
  text_eq_sound, is_empty, Bool-cases, arith,
}
use webot_msg.Common.Strings.{split, trim_prefix}
use webot_msg.Config.{UserConfig}
use webot_msg.Api.{
  Request, Response, JsonBody, Server, send_error, parse_request_params, request_token, authorised,
  with_params, with_parts, handle_bot_action,
}

module _ {W : Type 0} (s : Server W) (r : Request) (w : W) where
  -- A request with the token of the bot in its path, which is not the empty one.
  pub record Authorised : Type 0 where
    pub bot_id : Text
    pub action : Text
    pub more : List Text
    pub json : JsonBody
    pub user : UserConfig
    pub path : split b'/' (trim_prefix r.url_path (codes "/bots/")) ≡ bot_id ∷ (action ∷ more)
    pub params : parse_request_params s.unmarshal r ≡ inl json
    pub bot_found : s.get_bot bot_id w ≡ some user
    pub token_right : user.api_token ≡ request_token r json
    pub token_there : is_empty (request_token r json) ≡ false

  -- The answer is an error and nothing has happened.
  abbrev pub Refused : Response × W → Type 0
  Refused (response, w') = (400 ≤ response.status) × (w' ≡ w)

  abbrev pub Checked : Response × W → Type 0
  Checked out = Refused out ⊎ Authorised

  authorised-Checked :
      (bot_id action : Text) (more : List Text) (json : JsonBody) (o : Option UserConfig)
      → split b'/' (trim_prefix r.url_path (codes "/bots/")) ≡ bot_id ∷ (action ∷ more)
      → parse_request_params s.unmarshal r ≡ inl json
      → s.get_bot bot_id w ≡ o
      → Checked (authorised s action (request_token r json) r o json w)
  unfolding authorised send_error
  authorised-Checked bot_id action more json none p q g = inl (ground arith)
  authorised-Checked bot_id action more json (some user) p q g =
      let token = request_token r json in
      elim (Bool-cases (text_eq user.api_token token)) [
        | inr other ↦ inl (simp other (omega arith, refl))
        | inl same ↦ elim (Bool-cases (is_empty token)) [
          | inl empty ↦ inl (simp (same, empty) (omega arith, refl))
          | inr there ↦ inr (record {
            bot_id = bot_id;
            action = action;
            more = more;
            json = json;
            user = user;
            path = p;
            params = q;
            bot_found = g;
            token_right = text_eq_sound user.api_token token same;
            token_there = there;
          })
        ]
      ]

  refused_params :
      (response : Response)
      → parse_request_params s.unmarshal r ≡ inr response
      → 400 ≤ response.status
  unfolding parse_request_params send_error
  refused_params response h = ground arith

  with_params-Checked :
      (bot_id action : Text) (more : List Text) (p : JsonBody ⊎ Response)
      → split b'/' (trim_prefix r.url_path (codes "/bots/")) ≡ bot_id ∷ (action ∷ more)
      → parse_request_params s.unmarshal r ≡ p
      → Checked (with_params s bot_id action r p w)
  unfolding with_params
  with_params-Checked bot_id action more (inl json) e q =
      authorised-Checked bot_id action more json (s.get_bot bot_id w) e q refl
  with_params-Checked bot_id action more (inr response) e q = inl (refused_params response q, refl)

  with_parts-Checked :
      (parts : List Text)
      → split b'/' (trim_prefix r.url_path (codes "/bots/")) ≡ parts
      → Checked (with_parts s parts r w)
  unfolding with_parts send_error
  with_parts-Checked [] e = inl (omega arith, refl)
  with_parts-Checked (bot_id ∷ []) e = inl (omega arith, refl)
  with_parts-Checked (bot_id ∷ (action ∷ more)) e =
      with_params-Checked bot_id action more (parse_request_params s.unmarshal r) e refl

  -- Whatever the request, either the answer has a status of at least 400 and nothing has changed, so
  -- that nothing was sent, reserved or queued, or the request carries the token, not empty, of the
  -- bot that its path names.
  pub handle_bot_action-Checked : Checked (handle_bot_action s r w)
  unfolding handle_bot_action
  handle_bot_action-Checked =
      with_parts-Checked (split b'/' (trim_prefix r.url_path (codes "/bots/"))) refl

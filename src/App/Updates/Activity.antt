-- ===== src/App/Updates/Activity.antt =====
-- What the messages of a poll leave in the store and in the guard.
use webot_msg.Common.{
  ◌≡◌, refl, ap, ◌∙◌, Bool, false, some, List, [], ◌∷◌, if◌then◌else◌, Text, text_eq, text_eq_sound,
  is_empty, Bool-cases, inl, inr,
}
use webot_msg.Config.{UserConfig}
use webot_msg.Config.Store.{Store, get_bot}
use webot_msg.Config.Bots.{get_bot-update_bot}
use webot_msg.Protection.Guard.{Guard}
use webot_msg.App.Updates.{
  persist_update_state, WeixinMessage, UpdatesResponse, opens_conversation, any_opens, set_buf,
  set_user_id, set_token, note_message, note_messages, note_updates,
}

abbrev pub with_buf : Text → UserConfig → UserConfig
with_buf buf user = if is_empty buf then user else record user { get_updates_buf = buf }

abbrev pub after_message : WeixinMessage → UserConfig → UserConfig
after_message msg user =
    if opens_conversation msg
    then record user { ilink_user_id = msg.from_user_id; context_token = msg.context_token }
    else user

-- The user after the messages: whoever wrote last, with both an id and a context.
abbrev pub last_opening : List WeixinMessage → UserConfig → UserConfig
last_opening [] user = user
last_opening (msg ∷ msgs) user = last_opening msgs (after_message msg user)

set_user_id_lem :
    (id : Text) (noted : Bool × UserConfig)
    → (set_user_id id noted).1 ≡ record noted.1 { ilink_user_id = id }
set_user_id_lem id (changed, user) = elim (Bool-cases (text_eq user.ilink_user_id id)) [
  | inl e ↦
      let same = text_eq_sound user.ilink_user_id id e in
      simp e (ap (λ x. record user { ilink_user_id = x }) same)
  | inr e ↦ simp e
]

set_token_lem :
    (token : Text) (noted : Bool × UserConfig)
    → (set_token token noted).1 ≡ record noted.1 { context_token = token }
set_token_lem token (changed, user) = elim (Bool-cases (text_eq user.context_token token)) [
  | inl e ↦
      let same = text_eq_sound user.context_token token e in
      simp e (ap (λ x. record user { context_token = x }) same)
  | inr e ↦ simp e
]

set_buf_lem : (buf : Text) (user : UserConfig) → (set_buf buf (false, user)).1 ≡ with_buf buf user
set_buf_lem buf user = elim (Bool-cases (is_empty buf)) [
  | inl e ↦ simp e
  | inr n ↦ elim (Bool-cases (text_eq user.get_updates_buf buf)) [
    | inl e ↦
        let same = text_eq_sound user.get_updates_buf buf e in
        simp (n, e) (ap (λ x. record user { get_updates_buf = x }) same)
    | inr e ↦ simp (n, e)
  ]
]

note_message_lem :
    (msg : WeixinMessage) (noted : Bool × UserConfig)
    → (note_message msg noted).1 ≡ after_message msg noted.1
unfolding note_message
note_message_lem msg noted =
    let first = set_user_id_lem msg.from_user_id noted in
    let second = set_token_lem msg.context_token (set_user_id msg.from_user_id noted) in
    elim (Bool-cases (opens_conversation msg)) [
      | inl e ↦
          simp e (
            second
            ∙ ap {A = UserConfig} (λ u. record u { context_token = msg.context_token }) first)
      | inr e ↦ simp e
    ]

note_messages_lem :
    (msgs : List WeixinMessage) (noted : Bool × UserConfig)
    → (note_messages msgs noted).1 ≡ last_opening msgs noted.1
unfolding note_messages
note_messages_lem [] noted = refl
note_messages_lem (msg ∷ msgs) noted =
    note_messages_lem msgs (note_message msg noted)
    ∙ ap (λ u. last_opening msgs u) (note_message_lem msg noted)

pub note_updates_lem :
    (res : UpdatesResponse) (user : UserConfig)
    → (note_updates res user).1 ≡ last_opening res.msgs (with_buf res.get_updates_buf user)
unfolding note_updates
note_updates_lem res user =
    note_messages_lem res.msgs (set_buf res.get_updates_buf (false, user))
    ∙ ap (λ u. last_opening res.msgs u) (set_buf_lem res.get_updates_buf user)

-- A poll of a bot that is in the store leaves the bot with the new position in the stream, if there
-- is one, and with the writer and the context of the last message that has both; nothing else of
-- the bot changes. This holds in memory whether or not the file could be written.
pub get_bot-persist_update_state :
    {W : Type 0} (guard : Guard W) (start : Text → W → W) (bot : Text) (res : UpdatesResponse)
    (user : UserConfig) (s : Store) (w : W)
    → get_bot bot s ≡ some user
    → get_bot bot (persist_update_state guard start bot res s w).0
      ≡ some (last_opening res.msgs (with_buf res.get_updates_buf user))
unfolding persist_update_state
get_bot-persist_update_state guard start bot res user s w h =
    let updated = get_bot-update_bot bot (note_updates res) user s h in
    let noted = note_updates_lem res user in
    elim (Bool-cases (any_opens res.msgs)) [
      | inl e ↦ simp (h, e, updated, noted)
      | inr e ↦ simp (h, e, updated, noted)
    ]

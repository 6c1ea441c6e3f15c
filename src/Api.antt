-- ===== src/Api.antt =====
-- internal/api/server.go: the handler of a request for a bot. The mux, tracing and the writing of
-- answers are left out.
pub mod Access
use webot_msg.Common.{
  ◌⊎◌, inl, inr, ℕ, ◌==◌, Bool, true, false, ◌||◌, not, Option, none, some, List, [], ◌∷◌,
  if◌then◌else◌, Text, codes, text_eq, is_empty, Error, Result, ok, err,
}
use webot_msg.Common.Int.{ℤ, pos, eqb_ℤ}
use webot_msg.Common.Strings.{has_prefix, trim_prefix, trim_space, contains, split}
use webot_msg.Config.{UserConfig}
use webot_msg.Protection.Guard.{is_rejection, rejection_reason, rejection_message, error_text}
use webot_msg.Sender.ProtectedText.{
  Services, Outcome, OutcomeKind, outcome_sent, outcome_queued, outcome_queue_full,
  send_or_enqueue_text,
}
use webot_msg.Strconv.{atoi_value}

-- What the handler asks a request for; `authorization` and `content_type` are headers.
pub record Request : Type 0 where
  pub url_path : Text
  pub authorization : Text
  pub content_type : Text
  pub body : Result Text
  pub multipart_form : Result (Unit {0})
  pub form : Result (Unit {0})
  pub form_value : Text → Text

-- The values of the object that an answer holds.
pub data Json : Type 0 where
  number : ℤ → Json
  string : Text → Json

pub record Response : Type 0 where
  pub status : ℕ
  pub fields : List (Text × Json)

-- A JSON object, with its values as `fmt.Sprint` prints them.
abbrev pub JsonBody : Type 0
JsonBody = List (Text × Text)

-- What the server is made of: JSON and the text of errors from outside come from the libraries.
pub record Server (W : Type 0) : Type 0 where
  pub services : Services W
  pub get_bot : Text → W → Option UserConfig
  pub send_typing : UserConfig → ℤ → W → Result (Unit {0}) × W
  pub unmarshal : Text → Result JsonBody
  pub error_of_library : ℕ → Text
  pub reminder_text : Text

unfoldable pub send_error : ℕ → Text → Response
send_error code message = record {
  status = code;
  fields = (codes "code", number (pos code)) ∷ (codes "error", string message) ∷ [];
}

abbrev pub sent_ok : Response
sent_ok = record {
  status = 200;
  fields = (codes "code", number (pos 200)) ∷ (codes "message", string (codes "OK")) ∷ [];
}

unfoldable pub send_protection_locked : Text → Text → Response
send_protection_locked message reason = record {
  status = 429;
  fields =
      (codes "code", number (pos 429))
      ∷ (codes "error", string message)
      ∷ (if is_empty reason then [] else (codes "reason", string reason) ∷ []);
}

unfoldable pub json_value : Text → JsonBody → Option Text
json_value key [] = none
json_value key ((k, value) ∷ json) =
    let rest = json_value key json in if text_eq k key then some value else rest

abbrev or_form : Request → Text → Option Text → Text
or_form r key none = r.form_value key
or_form r key (some value) = value

unfoldable pub get_req_param : Request → Text → JsonBody → Text
get_req_param r key json = or_form r key (json_value key json)

abbrev with_json : Result JsonBody → JsonBody ⊎ Response
with_json (ok json) = inl json
with_json (err e) = inr (send_error 400 (codes "Invalid JSON body"))

abbrev json_params : (Text → Result JsonBody) → Result Text → JsonBody ⊎ Response
json_params unmarshal (err e) = inr (send_error 400 (codes "Invalid request body"))
json_params unmarshal (ok body) =
    if is_empty (trim_space body) then inl [] else with_json (unmarshal body)

abbrev form_params : Text → Result (Unit {0}) → JsonBody ⊎ Response
form_params message (ok done) = inl []
form_params message (err e) = inr (send_error 400 message)

-- The JSON object of the request, or the answer to a request that cannot be read.
unfoldable pub parse_request_params : (Text → Result JsonBody) → Request → JsonBody ⊎ Response
parse_request_params unmarshal r =
    if contains r.content_type (codes "application/json")
    then json_params unmarshal r.body
    else if contains r.content_type (codes "multipart/form-data")
    then form_params (codes "Invalid multipart form") r.multipart_form
    else form_params (codes "Invalid form") r.form

unfoldable pub request_token : Request → JsonBody → Text
request_token r json =
    if has_prefix r.authorization (codes "Bearer ")
    then trim_prefix r.authorization (codes "Bearer ")
    else get_req_param r (codes "token") json

module _ {W : Type 0} (s : Server W) where
  unfoldable pub error_response : Error → Response
  error_response e =
      if is_rejection e
      then send_protection_locked (rejection_message (rejection_reason e)) (rejection_reason e)
      else send_error 500 (error_text s.error_of_library e)

  unfoldable pub outcome_response : OutcomeKind → Outcome → Response
  outcome_response outcome_sent outcome = sent_ok
  outcome_response outcome_queued outcome = record {
    status = 202;
    fields =
        (codes "code", number (pos 202))
        ∷ (codes "status", string (codes "queued"))
        ∷ (codes "queued", number outcome.queue_len)
        ∷ [];
  }
  outcome_response outcome_queue_full outcome = send_error 503 (codes "send queue full")

  unfoldable pub send_response : (Outcome × Option Error) × W → Response × W
  send_response ((outcome, some e), w) = (error_response e, w)
  send_response ((outcome, none), w) = (outcome_response outcome.kind outcome, w)

  unfoldable pub handle_send_message : Request → UserConfig → JsonBody → W → Response × W
  handle_send_message r user json w =
      let text = get_req_param r (codes "text") json in
      if is_empty text
      then (send_error 400 (codes "Missing text"), w)
      else if is_empty user.ilink_user_id || is_empty user.context_token
      then (send_error 400 (codes "Context not ready"), w)
      else send_response (send_or_enqueue_text s.services user text s.reminder_text w)

  typing_response : Result (Unit {0}) × W → Response × W
  typing_response (ok done, w) = (sent_ok, w)
  typing_response (err e, w) = (send_error 500 (error_text s.error_of_library e), w)

  -- The error of `Atoi` is dropped.
  abbrev typing_status : ℤ → ℤ
  typing_status n = if eqb_ℤ n (pos 0) then pos 1 else n

  unfoldable pub handle_typing : Request → UserConfig → JsonBody → W → Response × W
  unfolding typing_response
  handle_typing r user json w =
      typing_response
        (s.send_typing user (typing_status (atoi_value (get_req_param r (codes "status") json))) w)

  unfoldable pub act : Text → Request → UserConfig → JsonBody → W → Response × W
  act action r user json w =
      if text_eq action (codes "messages")
      then handle_send_message r user json w
      else if text_eq action (codes "typing")
      then handle_typing r user json w
      else (send_error 404 (codes "Unknown action"), w)

  unfoldable pub authorised :
      Text → Text → Request → Option UserConfig → JsonBody → W → Response × W
  authorised action token r none json w = (send_error 404 (codes "Bot not found"), w)
  authorised action token r (some user) json w =
      if not (text_eq user.api_token token) || is_empty token
      then (send_error 401 (codes "Unauthorized"), w)
      else act action r user json w

  unfoldable pub with_params : Text → Text → Request → JsonBody ⊎ Response → W → Response × W
  with_params bot_id action r (inr response) w = (response, w)
  with_params bot_id action r (inl json) w =
      authorised action (request_token r json) r (s.get_bot bot_id w) json w

  unfoldable pub with_parts : List Text → Request → W → Response × W
  with_parts (bot_id ∷ (action ∷ more)) r w =
      with_params bot_id action r (parse_request_params s.unmarshal r) w
  with_parts _ r w = (send_error 404 (codes "Not Found"), w)

  unfoldable pub handle_bot_action : Request → W → Response × W
  handle_bot_action r w = with_parts (split b'/' (trim_prefix r.url_path (codes "/bots/"))) r w

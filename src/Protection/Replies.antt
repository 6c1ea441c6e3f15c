-- ===== src/Protection/Replies.antt =====
-- What the Go code reads out of the replies of the scripts (runDecisionScript,
-- runReservationScript, reservationWithStatus, parseScriptInt and parseRedisInt of redis_guard.go;
-- parseIngressResponse and parseQueueLen of queue.go). The texts of the errors leave out the values
-- that they quote.
use webot_msg.Common.{
  or_wrap, ℕ, Bool, true, false, Option, none, some, List, ◌∷◌, if◌then◌else◌, Text, codes, text_eq,
  failed, Result, ok, err, ◌>>=◌,
}
use webot_msg.Common.Int.{ℤ, pos, ◌-ℤ◌, ◌*ℤ◌, int64, ltb_ℤ}
use webot_msg.Strconv.{itoa, atoi}
use webot_msg.Redis.{Item, bulk, int, Response, array}
use webot_msg.Protection.Guard.{
  Decision, allow, reject, send_reminder_and_freeze, Reservation, normal_send, normal_rejected,
  normal_send_then_reminder, reminder_only, Ingress, send_now, queued, queue_full,
}

-- Nanoseconds in a millisecond.
abbrev pub millisecond : ℕ
millisecond = 1000000

-- `fmt.Sprint` of an element of a reply.
unfoldable pub sprint : Item → Text
sprint (bulk t) = t
sprint (int n) = itoa n

parsed_int : Option ℤ → Result ℤ
parsed_int none = err (failed (codes "invalid integer"))
parsed_int (some n) = ok n

unfoldable pub parse_script_int : Item → Result ℤ
unfolding parsed_int sprint
parse_script_int value = parsed_int (atoi (sprint value))

-- A difference that is reported as 0 once it is negative.
unfoldable pub clamp : ℤ → ℤ
clamp n = if ltb_ℤ n (pos 0) then pos 0 else n

unfoldable pub with_status : Reservation → ℤ → ℤ → ℤ → ℤ → Reservation
with_status reservation threshold warning out_count pttl_ms = record reservation {
  has_status = true;
  messages_before_reminder = clamp (int64 (threshold -ℤ out_count));
  time_before_warning = clamp (int64 (int64 (pttl_ms *ℤ millisecond) -ℤ warning));
}

unfoldable pub reservation_with_status : Reservation → List Item → ℤ → ℤ → Result Reservation
reservation_with_status reservation (kind ∷ (reason ∷ (count ∷ (ttl ∷ more)))) threshold warning =
    do
      out_count ← or_wrap (codes "parse reservation out_count failed") (parse_script_int count)
      pttl_ms ← or_wrap (codes "parse reservation pttl_ms failed") (parse_script_int ttl)
      ok (with_status reservation threshold warning out_count pttl_ms)
reservation_with_status reservation _ threshold warning =
    err (failed (codes "unexpected reservation response"))

-- The `switch` over the kind of a reservation.
unfoldable pub reservation_of : Text → Text → List Item → ℤ → ℤ → Result Reservation
reservation_of kind reason values threshold warning =
    if text_eq kind (codes "send")
    then reservation_with_status normal_send values threshold warning
    else if text_eq kind (codes "reject")
    then ok (normal_rejected reason)
    else if text_eq kind (codes "send_then_reminder")
    then reservation_with_status (normal_send_then_reminder reason) values threshold warning
    else if text_eq kind (codes "reminder_only")
    then ok (reminder_only reason)
    else err (failed (codes "unexpected reservation"))

-- A reply that is no list of at least two elements is an error.
abbrev pub with_values {ℓ} :
    {A : Type ℓ} → Text → Response → (Text → Text → List Item → Result A) → Result A
with_values unexpected (array (kind ∷ (reason ∷ more))) f =
    f (sprint kind) (sprint reason) (kind ∷ (reason ∷ more))
with_values unexpected _ f = err (failed unexpected)

unfoldable pub parse_reservation : ℤ → ℤ → Response → Result Reservation
parse_reservation threshold warning response =
    with_values (codes "unexpected script response") response
      λ kind reason values. reservation_of kind reason values threshold warning

unfoldable pub decision_of : Text → Text → Result Decision
decision_of kind reason =
    if text_eq kind (codes "allow")
    then ok allow
    else if text_eq kind (codes "reject")
    then ok (reject reason)
    else if text_eq kind (codes "reminder")
    then ok (send_reminder_and_freeze reason)
    else err (failed (codes "unexpected decision"))

unfoldable pub parse_decision : Response → Result Decision
parse_decision response =
    with_values (codes "unexpected script response") response
      λ kind reason values. decision_of kind reason

unfoldable pub parse_queue_len : List Item → Result ℤ
parse_queue_len (kind ∷ (reason ∷ (count ∷ more))) =
    or_wrap (codes "parse queue length failed") (parse_script_int count)
parse_queue_len _ = err (failed (codes "unexpected queue response"))

-- A field that the source leaves out has Go's zero value, which of a reservation is the plain send.
abbrev pub sent_now : Text → Reservation → Ingress
sent_now reason reservation = record {
  outcome = send_now;
  reservation = reservation;
  queue_len = pos 0;
  send_reminder = false;
  reason = reason;
}

abbrev pub put_in_queue : Text → Bool → ℤ → Ingress
put_in_queue reason due n = record {
  outcome = queued;
  reservation = normal_send;
  queue_len = n;
  send_reminder = due;
  reason = reason;
}

abbrev pub refused_full : Text → Ingress
refused_full reason = record {
  outcome = queue_full;
  reservation = normal_send;
  queue_len = pos 0;
  send_reminder = false;
  reason = reason;
}

abbrev pub map_ok {ℓ κ} : {A : Type ℓ} {B : Type κ} → (A → B) → Result A → Result B
map_ok f (ok a) = ok (f a)
map_ok f (err e) = err e

-- The `switch` over the outcomes of ingress.
unfoldable pub ingress_of : Text → Text → List Item → ℤ → ℤ → Result Ingress
ingress_of kind reason values threshold warning =
    if text_eq kind (codes "send")
    then map_ok (sent_now reason) (reservation_with_status normal_send values threshold warning)
    else if text_eq kind (codes "send_then_reminder")
    then map_ok (sent_now reason)
        (reservation_with_status (normal_send_then_reminder reason) values threshold warning)
    else if text_eq kind (codes "queued")
    then map_ok (put_in_queue reason false) (parse_queue_len values)
    else if text_eq kind (codes "queued_reminder")
    then map_ok (put_in_queue reason true) (parse_queue_len values)
    else if text_eq kind (codes "full")
    then ok (refused_full reason)
    else err (failed (codes "unexpected ingress outcome"))

unfoldable pub parse_ingress : ℤ → ℤ → Response → Result Ingress
parse_ingress threshold warning response =
    with_values (codes "unexpected ingress response") response
      λ kind reason values. ingress_of kind reason values threshold warning

int_or_zero : Option ℤ → ℤ
int_or_zero none = pos 0
int_or_zero (some n) = n

-- `parseRedisInt`: a missing field, or one that is no number, is 0.
unfoldable pub parse_redis_int : Option Text → ℤ
unfolding int_or_zero
parse_redis_int none = pos 0
parse_redis_int (some t) = int_or_zero (atoi t)

-- ===== src/Sender/ProtectedText.antt =====
-- internal/sender/protected_text.go. The guard, the message client, the source of ids and the
-- auditor act on a state `W`; a function that returns a value and an error returns both. Logging
-- is left out.
use webot_msg.Common.{
  ◌||◌, ◌++◌, [], Bool, true, false, Option, none, some, if◌then◌else◌, Text, codes, is_empty,
  Error, rejection, wrapped, Result, ok, err,
}
use webot_msg.Common.Int.{ℤ, pos}
use webot_msg.Config.{UserConfig}
use webot_msg.Protection.Guard.{
  ReservationKind, send_normal, reject_normal, send_normal_then_reminder, send_reminder_only,
  Reservation, Guard, QueueController, Ingress, IngressOutcome, send_now, queued, queue_full,
}
use webot_msg.Sender.Footer.{protection_status_footer}

pub record TextResult : Type 0 where
  pub normal_sent : Bool
  pub reminder_sent : Bool
  pub reminder_reason : Text

abbrev pub nothing_sent : TextResult
nothing_sent = record { normal_sent = false; reminder_sent = false; reminder_reason = [] }

pub data OutcomeKind : Type 0 where
  outcome_sent outcome_queued outcome_queue_full : OutcomeKind

pub record Outcome : Type 0 where
  pub kind : OutcomeKind
  pub result : TextResult
  pub queue_len : ℤ
  pub reason : Text

-- `Outcome{}`
abbrev pub no_outcome : Outcome
no_outcome = record { kind = outcome_sent; result = nothing_sent; queue_len = pos 0; reason = [] }

-- What a send works with: the operation of the guard and its queue, if it has one; the message
-- client, which is given the user, the recipient, the text and the context token; the options.
pub record Services (W : Type 0) : Type 0 where
  pub guard : Guard W
  pub controller : Option (QueueController W)
  pub send_message : UserConfig → Text → Text → Text → W → Result (Unit {0}) × W
  pub generate_id : W → Result Text × W
  pub record_audit : Text → Text → W → Result (Unit {0}) × W

abbrev pub error_of {ℓ} : {A : Type ℓ} → Result A → Option Error
error_of (ok a) = none
error_of (err e) = some e

module _ {W : Type 0} (v : Services W) (user : UserConfig) where
  open v use {guard, controller, send_message, generate_id, record_audit}

  recorded : Result (Unit {0}) → Bool × Option Error
  recorded (ok done) = (true, none)
  recorded (err e) = (true, some (wrapped (codes "record protection reminder failed") e))

  -- The reminder is out: it is recorded. A reminder that could not be sent is no error.
  reminder_sent_or_not : Result (Unit {0}) × W → (Bool × Option Error) × W
  reminder_sent_or_not (err e, w) = ((false, none), w)
  reminder_sent_or_not (ok done, w) =
      let (r, w') = guard.record_reminder_send user.bot_id w in (recorded r, w')

  unfoldable pub send_protection_reminder : Text → W → (Bool × Option Error) × W
  unfolding reminder_sent_or_not recorded
  send_protection_reminder reminder_text w =
      if is_empty reminder_text || is_empty user.ilink_user_id || is_empty user.context_token
      then ((false, none), w)
      else reminder_sent_or_not
          (send_message user user.ilink_user_id reminder_text user.context_token w)

  -- The text with the footer, if there is one, on a line of its own.
  unfoldable pub with_footer : Reservation → Text → Text
  with_footer reservation text =
      let footer = protection_status_footer reservation in
      if is_empty footer then text else text ++ (codes "\n" ++ footer)

  -- Without an id the message goes without one, and without an audit record.
  unfoldable pub with_id : Result Text → Text → Text
  with_id (ok id) text = text ++ (codes "\n" ++ id)
  with_id (err e) text = text

  unfoldable pub id_of : Result Text → Text
  id_of (ok id) = id
  id_of (err e) = []

  unfoldable pub audit_sent : Text → Text → W → W
  audit_sent id text w = if is_empty id then w else (record_audit id text w).1

  -- Only the error of the send is wrapped with `%w`.
  abbrev pub send_error : Error → Result (Unit {0}) → Error
  send_error e (ok done) = wrapped (codes "send failed") e
  send_error e (err e') = wrapped (codes "send failed; release protection reservation failed") e

  unfoldable pub send_failed : Error → W → (TextResult × Option Error) × W
  send_failed e w =
      let (released, w') = guard.release_normal_send user.bot_id w in
      ((nothing_sent, some (send_error e released)), w')

  unfoldable pub then_remind : Reservation → Text → W → (TextResult × Option Error) × W
  then_remind reservation reminder_text w =
      let ((sent, e), w') = send_protection_reminder reminder_text w in
      (
        (
          record { normal_sent = true; reminder_sent = sent; reminder_reason = reservation.reason },
          e,
        ),
        w',
      )

  after_send : ReservationKind → Reservation → Text → W → (TextResult × Option Error) × W
  unfolding then_remind
  after_send send_normal_then_reminder reservation reminder_text w =
      then_remind reservation reminder_text w
  after_send _ reservation reminder_text w = ((record nothing_sent { normal_sent = true }, none), w)

  sent_or_failed :
      Reservation → Text → Text → Text → Result (Unit {0}) × W → (TextResult × Option Error) × W
  unfolding send_failed after_send audit_sent
  sent_or_failed reservation id message reminder_text (err e, w) = send_failed e w
  sent_or_failed reservation id message reminder_text (ok done, w) =
      after_send reservation.kind reservation reminder_text (audit_sent id message w)

  unfoldable pub send_reserved : Reservation → Text → Text → W → (TextResult × Option Error) × W
  unfolding sent_or_failed
  send_reserved reservation text reminder_text w =
      let (id, w') = generate_id w in
      let message = with_id id (with_footer reservation text) in
      sent_or_failed reservation (id_of id) message reminder_text
        (send_message user user.ilink_user_id message user.context_token w')

  abbrev pub or_rejection : Text → Option Error → Option Error
  or_rejection reason (some e) = some e
  or_rejection reason none = some (rejection reason)

  unfoldable pub remind_only : Reservation → Text → W → (TextResult × Option Error) × W
  remind_only reservation reminder_text w =
      let ((sent, e), w') = send_protection_reminder reminder_text w in
      (
        (
          record {
            normal_sent = false;
            reminder_sent = sent;
            reminder_reason = reservation.reason;
          },
          or_rejection reservation.reason e,
        ),
        w',
      )

  dispatch : ReservationKind → Reservation → Text → Text → W → (TextResult × Option Error) × W
  unfolding send_reserved remind_only
  dispatch reject_normal reservation text reminder_text w =
      ((nothing_sent, some (rejection reservation.reason)), w)
  dispatch send_reminder_only reservation text reminder_text w =
      remind_only reservation reminder_text w
  dispatch send_normal reservation text reminder_text w =
      send_reserved reservation text reminder_text w
  dispatch send_normal_then_reminder reservation text reminder_text w =
      send_reserved reservation text reminder_text w

  unfoldable pub send_with_reservation :
      Reservation → Text → Text → W → (TextResult × Option Error) × W
  unfolding dispatch
  send_with_reservation reservation text reminder_text w =
      dispatch reservation.kind reservation text reminder_text w

  with_reservation : Text → Text → Result Reservation × W → (TextResult × Option Error) × W
  with_reservation text reminder_text (err e, w) = ((nothing_sent, some e), w)
  with_reservation text reminder_text (ok reservation, w) =
      send_with_reservation reservation text reminder_text w

  -- `sendProtectedText`
  unfoldable pub send_protected_text : Text → Text → W → (TextResult × Option Error) × W
  unfolding with_reservation
  send_protected_text text reminder_text w =
      with_reservation text reminder_text (guard.reserve_normal_send user.bot_id w)

  -- An error hides the result.
  sent_outcome : Text → (TextResult × Option Error) × W → (Outcome × Option Error) × W
  sent_outcome reason ((result, some e), w) = ((no_outcome, some e), w)
  sent_outcome reason ((result, none), w) = (
    (record { kind = outcome_sent; result = result; queue_len = pos 0; reason = reason }, none),
    w,
  )

  abbrev pub queued_outcome : Ingress → TextResult → Outcome
  queued_outcome ingress result = record {
    kind = outcome_queued;
    result = result;
    queue_len = ingress.queue_len;
    reason = ingress.reason;
  }

  abbrev pub remind_queue_of : Ingress → (Bool × Option Error) × W → (Outcome × Option Error) × W
  remind_queue_of ingress ((sent, e), w) = (
    (
      queued_outcome ingress
          (record { normal_sent = false; reminder_sent = sent; reminder_reason = ingress.reason }),
      e,
    ),
    w,
  )

  unfoldable pub remind_queued : Ingress → Text → W → (Outcome × Option Error) × W
  remind_queued ingress reminder_text w =
      if ingress.send_reminder
      then remind_queue_of ingress (send_protection_reminder reminder_text w)
      else ((queued_outcome ingress nothing_sent, none), w)

  admit : IngressOutcome → Ingress → Text → Text → W → (Outcome × Option Error) × W
  unfolding remind_queued sent_outcome
  admit send_now ingress text reminder_text w =
      sent_outcome ingress.reason (send_with_reservation ingress.reservation text reminder_text w)
  admit queued ingress text reminder_text w = remind_queued ingress reminder_text w
  admit queue_full ingress text reminder_text w = (
    (
      record {
        kind = outcome_queue_full;
        result = nothing_sent;
        queue_len = pos 0;
        reason = ingress.reason;
      },
      none,
    ),
    w,
  )

  admitted : Text → Text → Result Ingress × W → (Outcome × Option Error) × W
  unfolding admit
  admitted text reminder_text (err e, w) = ((no_outcome, some e), w)
  admitted text reminder_text (ok ingress, w) = admit ingress.outcome ingress text reminder_text w

  via_controller : Option (QueueController W) → Text → Text → W → (Outcome × Option Error) × W
  unfolding admitted sent_outcome
  via_controller (some q) text reminder_text w =
      admitted text reminder_text (q.acquire_or_enqueue user.bot_id text w)
  via_controller none text reminder_text w =
      sent_outcome [] (send_protected_text text reminder_text w)

  unfoldable pub send_or_enqueue_text : Text → Text → W → (Outcome × Option Error) × W
  unfolding via_controller
  send_or_enqueue_text text reminder_text w = via_controller controller text reminder_text w

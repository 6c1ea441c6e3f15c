-- ===== src/Protection/Guard.antt =====
-- internal/protection/guard.go: decisions, reservations, rejections, and the guard's interface.
use webot_msg.Common.{
  ℕ, Bool, true, false, Option, ◌++◌, if◌then◌else◌, Text, codes, is_empty, Error, rejection,
  rejection_by, wrapped, failed, outer, Result, ok, [],
}
use webot_msg.Common.Int.{ℤ, pos}

pub data Decision : Type 0 where
  allow : Decision
  reject : Text → Decision
  send_reminder_and_freeze : Text → Decision

pub data ReservationKind : Type 0 where
  send_normal reject_normal send_normal_then_reminder send_reminder_only : ReservationKind

-- A duration is a number of nanoseconds.
pub record Reservation : Type 0 where
  pub kind : ReservationKind
  pub reason : Text
  pub has_status : Bool
  pub messages_before_reminder : ℤ
  pub time_before_warning : ℤ

abbrev reservation : ReservationKind → Text → Reservation
reservation kind reason = record {
  kind = kind;
  reason = reason;
  has_status = false;
  messages_before_reminder = pos 0;
  time_before_warning = pos 0;
}

abbrev pub normal_send : Reservation
normal_send = reservation send_normal []

abbrev pub normal_rejected : Text → Reservation
normal_rejected = reservation reject_normal

abbrev pub normal_send_then_reminder : Text → Reservation
normal_send_then_reminder = reservation send_normal_then_reminder

abbrev pub reminder_only : Text → Reservation
reminder_only = reservation send_reminder_only

pub record Status : Type 0 where
  pub enabled : Bool
  pub bot_id : Text
  pub active_window_ready : Bool
  pub frozen : Bool
  pub reason : Text
  pub out_count : ℤ
  pub message_limit : ℤ
  pub warning_threshold : ℤ
  pub messages_before_reminder : ℤ
  pub active_window_remaining : ℤ
  pub time_before_warning : ℤ
  pub reminder_pending : Bool
  pub queued_count : ℕ

pub data IngressOutcome : Type 0 where
  send_now queued queue_full : IngressOutcome

-- queue.go: what `AcquireOrEnqueue` decides about a message.
pub record Ingress : Type 0 where
  pub outcome : IngressOutcome
  pub reservation : Reservation
  pub queue_len : ℤ
  pub send_reminder : Bool
  pub reason : Text

-- What the callers of a guard use, over the state `W` that its calls read and change.
pub record Guard (W : Type 0) : Type 0 where
  pub reserve_normal_send : Text → W → Result Reservation × W
  pub release_normal_send : Text → W → Result (Unit {0}) × W
  pub record_reminder_send : Text → W → Result (Unit {0}) × W
  pub record_active_conversation : Text → W → Result (Unit {0}) × W
  pub check_time_window : Text → W → Result Decision × W

-- queue.go, `SendQueueController`.
pub record QueueController (W : Type 0) : Type 0 where
  pub acquire_or_enqueue : Text → Text → W → Result Ingress × W
  pub peek_queued : Text → W → Result (Option (Text × ℤ)) × W
  pub drop_front : Text → W → Result (Unit {0}) × W
  pub queue_len : Text → W → Result ℕ × W

-- `NoopGuard` lets everything pass.
abbrev pub noop_guard : {W : Type 0} → Guard W
noop_guard = record {
  reserve_normal_send = λ bot w. (ok normal_send, w);
  release_normal_send = λ bot w. (ok tt, w);
  record_reminder_send = λ bot w. (ok tt, w);
  record_active_conversation = λ bot w. (ok tt, w);
  check_time_window = λ bot w. (ok allow, w);
}

-- `IsRejection`: `errors.As` looks for a rejection through the wrapped errors.
unfoldable pub is_rejection : Error → Bool
is_rejection (rejection reason) = true
is_rejection (rejection_by reason e) = true
is_rejection (wrapped message e) = is_rejection e
is_rejection (failed message) = false
is_rejection (outer n) = false

-- `RejectionReason`: the reason of the outermost rejection.
unfoldable pub rejection_reason : Error → Text
rejection_reason (rejection reason) = reason
rejection_reason (rejection_by reason e) = reason
rejection_reason (wrapped message e) = rejection_reason e
rejection_reason (failed message) = []
rejection_reason (outer n) = []

abbrev with_detail : Text → Text → Text
with_detail message detail = message ++ codes ": " ++ detail

-- `(*RejectionError).Error`; the texts of errors from outside come with them.
unfoldable pub error_text : (ℕ → Text) → Error → Text
error_text outside (rejection reason) =
    if is_empty reason
    then codes "protection mode locked"
    else with_detail (codes "protection mode locked") reason
error_text outside (rejection_by reason e) =
    with_detail
      (if is_empty reason
        then codes "protection mode locked"
        else with_detail (codes "protection mode locked") reason)
      (error_text outside e)
error_text outside (wrapped message e) = with_detail message (error_text outside e)
error_text outside (failed message) = message
error_text outside (outer n) = outside n

unfoldable pub rejection_message : Text → Text
rejection_message reason =
    if is_empty reason
    then codes "protection mode locked; send a message from WeChat app before continuing"
    else codes "protection mode locked ("
      ++ (reason ++ codes "); send a message from WeChat app before continuing")

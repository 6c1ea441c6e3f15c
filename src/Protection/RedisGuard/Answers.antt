-- ===== src/Protection/RedisGuard/Answers.antt =====
-- What a command that is answered leaves, and how the replies of the scripts are read.
use webot_msg.Common.{
  ◌≤◌, ◌≡◌, refl, ap, ◌∙◌, Bool, true, false, List, [], ◌∷◌, tail, arith, Text, text_eq, Result, ok,
  length,
}
use webot_msg.Common.Int.{ℤ, pos, FitsInt64}
use webot_msg.Strconv.RoundTrip.{atoi-itoa}
use webot_msg.Redis.{Redis, max_exact, Response, Item}
use webot_msg.Protection.Guard.{
  Decision, allow, reject, send_reminder_and_freeze, Reservation, normal_send, normal_rejected,
  normal_send_then_reminder, reminder_only, Ingress,
}
use webot_msg.Protection.Policy.{
  BotState, Limits, Ruling, sends, sends_then_reminds, rejects, reminds_only, enqueues, overflows,
  reminds, allows, reserve, check_window, acquire, reserve_from, reserve_unlocked, count_one,
  check_from, check_unlocked, put,
}
use webot_msg.Protection.Scripts
use webot_msg.Protection.Refine.Sends.{reply}
use webot_msg.Protection.Replies.{
  sprint, parse_script_int, with_status, reservation_with_status, reservation_of, parse_reservation,
  decision_of, parse_decision, parse_queue_len, ingress_of, parse_ingress, sent_now, put_in_queue,
  refused_full,
}
use webot_msg.Protection.RedisGuard.{
  RedisGuardConfig, threshold, Delivery, answered, lost_request, lost_reply, tried_again, Server,
  call, run_script, evaluated, PayloadCodec, drop_front, reserve_normal_send, release_normal_send,
  record_reminder_send,
}

-- The next command is carried out and answered.
abbrev pub answers : List Delivery → Bool
answers [] = true
answers (answered ∷ fates) = true
answers (lost_request e ∷ fates) = false
answers (lost_reply e ∷ fates) = false
answers (tried_again fate ∷ fates) = false

pub call_answered {ℓ} :
    {A : Type ℓ} (r : Redis) (command : r.Db → Result A × r.Db) (s : Server r)
    → answers s.fates ≡ true
    → call r command s
      ≡ ((command s.db).0, record s { db = (command s.db).1; fates = tail s.fates })
unfolding call
call_answered r command s h = ground arith

-- What `ReserveNormalSend` reports of a ruling.
abbrev pub reservation_for : RedisGuardConfig → Ruling → Reservation
reservation_for g (sends n w) =
    with_status normal_send (threshold g) g.time_warning_before (pos n) w
reservation_for g (sends_then_reminds n w) =
    with_status (normal_send_then_reminder Scripts.reason_count) (threshold g) g.time_warning_before
      (pos n) w
reservation_for g (reminds_only reason) = reminder_only reason
reservation_for g (rejects reason) = normal_rejected reason
reservation_for g _ = normal_rejected []

script_int_lem : (n : ℤ) → FitsInt64 n → parse_script_int (Item.int n) ≡ ok n
unfolding parse_script_int
script_int_lem n h = rw (atoi-itoa n h)

-- The rulings on a reservation, with numbers that the reply's integers hold.
abbrev pub IsReservation : Ruling → Type 0
IsReservation (sends n w) = FitsInt64 (pos n) × FitsInt64 w
IsReservation (sends_then_reminds n w) = FitsInt64 (pos n) × FitsInt64 w
IsReservation (rejects reason) = Unit
IsReservation (reminds_only reason) = Unit
IsReservation _ = ⊥

pub parse_reservation-reply :
    (g : RedisGuardConfig) (v : Ruling)
    → IsReservation v
    → parse_reservation (threshold g) g.time_warning_before (reply v) ≡ ok (reservation_for g v)
unfolding parse_reservation reservation_of reservation_with_status text_eq sprint
parse_reservation-reply g (sends n w) (fn, fw) = rw (script_int_lem (pos n) fn, script_int_lem w fw)
parse_reservation-reply g (sends_then_reminds n w) (fn, fw) =
    rw (script_int_lem (pos n) fn, script_int_lem w fw)
parse_reservation-reply g (rejects reason) h = refl
parse_reservation-reply g (reminds_only reason) h = refl
parse_reservation-reply g (enqueues reason due n) h = absurd h
parse_reservation-reply g (overflows reason) h = absurd h
parse_reservation-reply g (reminds reason) h = absurd h
parse_reservation-reply g allows h = absurd h

pub reserve-IsReservation :
    (l : Limits) (b : BotState)
    → b.count ≤ max_exact
    → FitsInt64 b.window
    → IsReservation (reserve l b).0
unfolding reserve reserve_from reserve_unlocked count_one
reserve-IsReservation l b h fw = ground arith

-- What `CheckTimeWindow` reports of a ruling.
abbrev pub decision_for : Ruling → Decision
decision_for (rejects reason) = reject reason
decision_for (reminds reason) = send_reminder_and_freeze reason
decision_for _ = allow

abbrev IsDecision : Ruling → Type 0
IsDecision (rejects reason) = Unit
IsDecision (reminds reason) = Unit
IsDecision allows = Unit
IsDecision _ = ⊥

parse_decision-reply : (v : Ruling) → IsDecision v → parse_decision (reply v) ≡ ok (decision_for v)
unfolding parse_decision decision_of text_eq sprint
parse_decision-reply (rejects reason) h = refl
parse_decision-reply (reminds reason) h = refl
parse_decision-reply allows h = refl
parse_decision-reply (sends n w) h = absurd h
parse_decision-reply (sends_then_reminds n w) h = absurd h
parse_decision-reply (reminds_only reason) h = absurd h
parse_decision-reply (enqueues reason due n) h = absurd h
parse_decision-reply (overflows reason) h = absurd h

check_window-IsDecision : (l : Limits) (b : BotState) → IsDecision (check_window l b).0
unfolding check_window check_from check_unlocked
check_window-IsDecision l b = ground arith

pub parse_decision-check :
    (l : Limits) (b : BotState)
    → parse_decision (reply (check_window l b).0) ≡ ok (decision_for (check_window l b).0)
parse_decision-check l b = parse_decision-reply _ (check_window-IsDecision l b)

-- What `AcquireOrEnqueue` reports of a ruling.
abbrev pub ingress_for : RedisGuardConfig → Ruling → Ingress
ingress_for g (sends n w) = sent_now [] (reservation_for g (sends n w))
ingress_for g (sends_then_reminds n w) =
    sent_now Scripts.reason_count (reservation_for g (sends_then_reminds n w))
ingress_for g (enqueues reason due n) = put_in_queue reason due (pos n)
ingress_for g (overflows reason) = refused_full reason
ingress_for g _ = refused_full []

abbrev IsIngress : Ruling → Type 0
IsIngress (sends n w) = FitsInt64 (pos n) × FitsInt64 w
IsIngress (sends_then_reminds n w) = FitsInt64 (pos n) × FitsInt64 w
IsIngress (enqueues reason due n) = FitsInt64 (pos n)
IsIngress (overflows reason) = Unit
IsIngress _ = ⊥

pub parse_ingress-reply :
    (g : RedisGuardConfig) (v : Ruling)
    → IsIngress v
    → parse_ingress (threshold g) g.time_warning_before (reply v) ≡ ok (ingress_for g v)
unfolding parse_ingress ingress_of reservation_with_status parse_queue_len text_eq sprint
parse_ingress-reply g (sends n w) (fn, fw) = rw (script_int_lem (pos n) fn, script_int_lem w fw)
parse_ingress-reply g (sends_then_reminds n w) (fn, fw) =
    rw (script_int_lem (pos n) fn, script_int_lem w fw)
parse_ingress-reply g (enqueues reason true n) fn = rw (script_int_lem (pos n) fn)
parse_ingress-reply g (enqueues reason false n) fn = rw (script_int_lem (pos n) fn)
parse_ingress-reply g (overflows reason) h = refl
parse_ingress-reply g (rejects reason) h = absurd h
parse_ingress-reply g (reminds_only reason) h = absurd h
parse_ingress-reply g (reminds reason) h = absurd h
parse_ingress-reply g allows h = absurd h

pub acquire-IsIngress :
    (l : Limits) (payload : Text) (b : BotState)
    → b.count ≤ max_exact
    → length b.queue ≤ max_exact
    → FitsInt64 b.window
    → IsIngress (acquire l payload b).0
unfolding acquire put count_one
acquire-IsIngress l payload b h hq fw = ground arith

module _ (r : Redis) where
  evaluated-reply : (v : Ruling) (db : r.Db) → evaluated r (reply v, db) ≡ (ok (reply v), db)
  evaluated-reply (sends n w) db = refl
  evaluated-reply (sends_then_reminds n w) db = refl
  evaluated-reply (rejects reason) db = refl
  evaluated-reply (reminds_only reason) db = refl
  evaluated-reply (enqueues reason due n) db = refl
  evaluated-reply (overflows reason) db = refl
  evaluated-reply (reminds reason) db = refl
  evaluated-reply allows db = refl

  -- A script that is carried out, with a reply that no error aborted.
  pub run_answered :
      (script : r.Db → Response × r.Db) (s : Server r) (v : Ruling)
      → answers s.fates ≡ true
      → (script s.db).0 ≡ reply v
      → run_script r script s
        ≡ (ok (reply v), record s { db = (script s.db).1; fates = tail s.fates })
  unfolding run_script
  run_answered script s v live e =
      let q = ap (λ a. evaluated r (a, (script s.db).1)) e ∙ evaluated-reply v (script s.db).1 in
      call_answered r (λ db. evaluated r (script db)) s live
      ∙ ap (λ (x : Result Response × r.Db). (x.0, record s { db = x.1; fates = tail s.fates })) q

module _ (r : Redis) (g : RedisGuardConfig) (bot : Text) (s : Server r) where
  -- Each method makes one call.
  pub reserve_normal_send-fates : (reserve_normal_send r g bot s).1.fates ≡ tail s.fates
  unfolding reserve_normal_send run_script call
  reserve_normal_send-fates = ground arith

  pub release_normal_send-fates : (release_normal_send r g bot s).1.fates ≡ tail s.fates
  unfolding release_normal_send run_script call
  release_normal_send-fates = ground arith

  pub record_reminder_send-fates : (record_reminder_send r g bot s).1.fates ≡ tail s.fates
  unfolding record_reminder_send run_script call
  record_reminder_send-fates = ground arith

  -- No call stops the clock.
  pub reserve_normal_send-now_ms : (reserve_normal_send r g bot s).1.now_ms ≡ s.now_ms
  unfolding reserve_normal_send run_script call
  reserve_normal_send-now_ms = ground arith

  pub drop_front-fates :
      (codec : PayloadCodec) → (drop_front r codec g bot s).1.fates ≡ tail s.fates
  unfolding drop_front call
  drop_front-fates codec = ground arith

  pub drop_front-now_ms : (codec : PayloadCodec) → (drop_front r codec g bot s).1.now_ms ≡ s.now_ms
  unfolding drop_front call
  drop_front-now_ms codec = ground arith

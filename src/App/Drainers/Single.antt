-- ===== src/App/Drainers/Single.antt =====
-- No bot has two loops at work, and no wake-up is lost.
use webot_msg.Common.{
  ℕ, ◌<◌, ◌≡◌, refl, ◌==◌, inl, inr, Bool, true, false, Option, none, some, arith, Text, text_eq,
  text_eq_refl, text_eq_sound, Bool-cases,
}
use webot_msg.App.Drainers.{
  SendQueueDrainer, Drainers, is_this, set_running, set_drainer, start_for,
  start_send_queue_drainer, drain_returned, take_drainer, take_drainers, cancel_drainer,
  no_drainers,
}

-- The loops in the table are at work, and a loop at work is in the table, was cancelled, or is due to
-- be.
pub record Tidy (s : Drainers) : Type 0 where
  pub listed :
      (bot : Text) (d : ℕ)
      → s.running bot ≡ some d
      → (d < s.started)
        × ((s.drainers d).owner ≡ bot)
        × ((s.drainers d).draining ≡ true)
        × ((s.drainers d).cancelled ≡ false)
        × (s.due d ≡ false)
  pub at_work :
      (d : ℕ)
      → d < s.started
      → (s.drainers d).draining ≡ true
      → (s.drainers d).cancelled ≡ false
      → s.due d ≡ false
      → s.running (s.drainers d).owner ≡ some d
  pub taken : (d : ℕ) → s.due d ≡ true → d < s.started

module _ (bot : Text) (s : Drainers) (t : Tidy s) where
  first-Tidy : s.running bot ≡ none → Tidy (start_for none bot s)
  unfolding start_for
  first-Tidy e = record {
    taken = λ d q. let old = t.taken d q in omega (arith, old);
    listed = λ b d q. elim (Bool-cases (text_eq bot b)) [
      | inl same ↦
          let here : s.started ≡ d = ground arith in
          let fresh = t.taken d in let owner = text_eq_sound bot b same in ground arith
      | inr other ↦ let known = t.listed b d (ground arith) in ground arith
    ];
    at_work = λ d i w c u. elim (Bool-cases (d == s.started)) [
      | inl same ↦ ground (arith, text_eq_refl bot)
      | inr other ↦
          let known = t.at_work d (ground arith) (ground arith) (ground arith) u in
          ground (arith, text_eq_sound bot (s.drainers d).owner)
    ];
  }

  -- The lock of a loop's record is not touched by a new round of it.
  round-Tidy :
      (d : ℕ) (x : SendQueueDrainer)
      → x.owner ≡ (s.drainers d).owner
      → x.draining ≡ (s.drainers d).draining
      → x.cancelled ≡ (s.drainers d).cancelled
      → Tidy (record s { drainers = set_drainer s.drainers d x })
  round-Tidy d x o w c = record {
    taken = t.taken;
    listed = λ b e q. let known = t.listed b e q in ground arith;
    at_work = λ e i v k u. elim (Bool-cases (e == d)) [
      | inl same ↦
          let here : e ≡ d = ground arith in
          let known = t.at_work d (ground arith) (ground arith) (ground arith) (ground arith) in
          ground arith
      | inr other ↦
          let known = t.at_work e (ground arith) (ground arith) (ground arith) u in ground arith
    ];
  }

  removed-Tidy :
      (d : ℕ) (x : SendQueueDrainer)
      → s.running bot ≡ some d
      → x.owner ≡ bot
      → x.draining ≡ false
      → Tidy (record {
        running = set_running s.running bot none;
        drainers = set_drainer s.drainers d x;
        started = s.started;
        due = s.due;
      })
  removed-Tidy d x r o w = record {
    taken = t.taken;
    listed = λ b e q. elim (Bool-cases (text_eq bot b)) [
      | inl same ↦ ground arith
      | inr other ↦
          let known = t.listed b e (ground arith) in
          let mine = t.listed bot d r in ground (arith, text_eq_refl bot)
    ];
    at_work = λ e i v k u. elim (Bool-cases (e == d)) [
      | inl same ↦ ground arith
      | inr other ↦
          let known = t.at_work e (ground arith) (ground arith) (ground arith) u in
          ground (arith, text_eq_sound bot (s.drainers e).owner)
    ];
  }

  start_for-Tidy : (o : Option ℕ) → s.running bot ≡ o → Tidy (start_for o bot s)
  unfolding start_for
  start_for-Tidy none e = first-Tidy e
  start_for-Tidy (some d) e = round-Tidy d (record (s.drainers d) { rerun = true }) refl refl refl

  pub start-Tidy : (enabled : Bool) → Tidy (start_send_queue_drainer enabled bot s)
  unfolding start_send_queue_drainer
  start-Tidy true = start_for-Tidy (s.running bot) refl
  start-Tidy false = t

  unlisted-Tidy :
      (d : ℕ) (x : SendQueueDrainer)
      → is_this (s.running (s.drainers d).owner) d ≡ false
      → x.draining ≡ false
      → Tidy (record s { drainers = set_drainer s.drainers d x })
  unlisted-Tidy d x o w = record {
    taken = t.taken;
    listed = λ b e q. elim (Bool-cases (e == d)) [
      | inl same ↦
          let here : e ≡ d = ground arith in let known = t.listed b d (ground arith) in ground arith
      | inr other ↦ let known = t.listed b e (ground arith) in ground arith
    ];
    at_work = λ e i v k u. elim (Bool-cases (e == d)) [
      | inl same ↦ ground arith
      | inr other ↦
          let known = t.at_work e (ground arith) (ground arith) (ground arith) u in ground arith
    ];
  }

  is_this_sound : (o : Option ℕ) (d : ℕ) → is_this o d ≡ true → o ≡ some d
  is_this_sound none d h = ground arith
  is_this_sound (some c) d h = ground arith

  is_this_refl : (d : ℕ) → is_this (some d) d ≡ true
  is_this_refl d = ground arith

  -- A loop that is taken out of the table is due.
  pub take_drainer-Tidy : Tidy (take_drainer bot s)
  unfolding take_drainer
  take_drainer-Tidy = record {
    listed = λ b d q. elim (Bool-cases (text_eq bot b)) [
      | inl same ↦ ground arith
      | inr other ↦
          let known = t.listed b d (ground arith) in
          let mine = t.listed bot d in
          let sound = is_this_sound (s.running bot) d in ground (arith, text_eq_refl bot)
    ];
    at_work = λ d i w c u.
        let free : s.due d ≡ false = ground arith in
        let known = t.at_work d i w c free in
        ground (arith, text_eq_sound bot (s.drainers d).owner, is_this_refl d);
    taken = λ d q.
        let old = t.taken d in
        let mine = t.listed bot d in let sound = is_this_sound (s.running bot) d in ground arith;
  }

  pub take_drainers-Tidy : Tidy (take_drainers s)
  unfolding take_drainers
  take_drainers-Tidy = record {
    listed = λ b d q. ground arith;
    at_work = λ d i w c u. let old = t.at_work d i w c in let here = is_this_refl d in ground arith;
    taken = λ d q.
        let old = t.taken d in
        let owner = (s.drainers d).owner in
        let mine = t.listed owner d in
        let sound = is_this_sound (s.running owner) d in ground arith;
  }

  -- The cancel of a loop that is due does not touch the table.
  pub cancel_drainer-Tidy : (d : ℕ) → s.due d ≡ true → Tidy (cancel_drainer (some d) s)
  unfolding cancel_drainer
  cancel_drainer-Tidy d h = record {
    listed = λ b e q.
        let known = t.listed b e q in
        elim (Bool-cases (e == d)) [
          | inl same ↦ let here : e ≡ d = ground arith in ground arith
          | inr other ↦ ground arith
        ];
    at_work = λ e i v k u. elim (Bool-cases (e == d)) [
      | inl same ↦ ground arith
      | inr other ↦
          let known = t.at_work e (ground arith) (ground arith) (ground arith) (ground arith) in
          ground arith
    ];
    taken = λ e q. let old = t.taken e in ground arith;
  }

module _ (s : Drainers) (t : Tidy s) (d : ℕ) where
  -- A loop that ends leaves the map.
  ended-Tidy :
      (again : Bool)
      → is_this (s.running (s.drainers d).owner) d ≡ true
      → Tidy (record {
        running = set_running s.running (s.drainers d).owner none;
        drainers =
            set_drainer s.drainers d (record (s.drainers d) { rerun = again; draining = false });
        started = s.started;
        due = s.due;
      })
  ended-Tidy again mine =
      let drainer = s.drainers d in
      removed-Tidy drainer.owner s t d (record drainer { rerun = again; draining = false })
        (is_this_sound drainer.owner s t (s.running drainer.owner) d mine) refl refl

  pub returned-Tidy : Tidy (drain_returned d s)
  unfolding drain_returned
  returned-Tidy =
      let drainer = s.drainers d in
      elim (Bool-cases (is_this (s.running drainer.owner) d)) [
        | inr other ↦
            let stopped =
              unlisted-Tidy drainer.owner s t d (record drainer { draining = false }) other refl in
            simp (other) stopped
        | inl mine ↦ elim (Bool-cases drainer.rerun) [
          | inl again ↦
              let next =
                round-Tidy drainer.owner s t d (record drainer { rerun = false }) refl refl refl in
              simp (mine, again) next
          | inr done ↦ let gone = ended-Tidy false mine in simp (mine, done) gone
        ]
      ]

pub none-Tidy : (x : SendQueueDrainer) → Tidy (no_drainers x)
unfolding no_drainers
none-Tidy x = record {
  listed = λ b d q. ground arith;
  at_work = λ d i w c u. ground arith;
  taken = λ d q. ground arith;
}

-- ===== src/Protection/Policy/Budget.antt =====
-- How many messages a bot may send between two conversations, and what a failed send costs.
use webot_msg.Common.{
  ℕ, zero, suc, ◌+◌, ◌≤◌, ◌≡◌, refl, ◌∙◌, ap, ◌⊎◌, Bool, true, false, List, [], ◌∷◌, ◌++◌, arith,
  Text, text_eq_refl,
}
use webot_msg.Common.Int.{ℤ, pos, pos_part, neg_part, leb_ℤ, ◌≤ℤ◌, ◌<ℤ◌}
use webot_msg.Protection.Scripts.{no_window, reason_count}
use webot_msg.Protection.Policy.{
  unlocked, locked, BotState, Limits, Ruling, sends, sends_then_reminds, rejects, count_one,
  reserve_unlocked, reserve_from, reserve, release_lock, release,
}

-- A ruling that lets the message go, with the number that it gets.
abbrev pub Sends : ℕ → Ruling → Type 0
Sends n v = (w : ℤ) × ((v ≡ sends n w) ⊎ (v ≡ sends_then_reminds n w))

-- Some reservations in a row, with no other event in between.
unfoldable pub reserve_many : ℕ → Limits → BotState → List Ruling × BotState
reserve_many zero l s = ([], s)
reserve_many (suc n) l s =
    let (v, s') = reserve l s in let (vs, t) = reserve_many n l s' in (v ∷ vs, t)

-- The rulings on messages `c + 1` to `c + n`, all sent.
unfoldable pub sent_from : ℕ → ℕ → ℤ → List Ruling
sent_from zero c w = []
sent_from (suc n) c w = sends (suc c) w ∷ sent_from n (suc c) w

unfoldable pub refused : ℕ → Text → List Ruling
refused zero reason = []
refused (suc n) reason = rejects reason ∷ refused n reason

module _ (l : Limits) where
  refused_many :
      (m : ℕ) (s : BotState) (reason : Text) (due : Bool)
      → s.lock ≡ locked reason due
      → reserve_many m l s ≡ (refused m reason, s)
  unfolding reserve_many refused reserve reserve_from
  refused_many zero s reason due e = refl
  refused_many (suc m) s reason due e = simp (e, refused_many m s reason due e)

  pub sent_one :
      (s : BotState)
      → s.lock ≡ unlocked
      → no_window s.window ≡ false
      → leb_ℤ s.window l.warn_ms ≡ false
      → pos (suc s.count) <ℤ l.threshold
      → reserve l s ≡ (sends (suc s.count) s.window, record s { count = suc s.count })
  unfolding reserve reserve_from reserve_unlocked count_one
  sent_one s e here early below =
      let open_still : leb_ℤ l.threshold (pos (suc s.count)) ≡ false = ground arith in
      simp (e, here, early, open_still)

  pub last_one :
      (s : BotState)
      → s.lock ≡ unlocked
      → no_window s.window ≡ false
      → leb_ℤ s.window l.warn_ms ≡ false
      → l.threshold ≤ℤ pos (suc s.count)
      → reserve l s ≡ (
        sends_then_reminds (suc s.count) s.window,
        record s { lock = locked reason_count true; count = suc s.count },
      )
  unfolding reserve reserve_from reserve_unlocked count_one
  last_one s e here early reached =
      let now : leb_ℤ l.threshold (pos (suc s.count)) ≡ true = ground arith in
      simp (e, here, early, now)

  -- In an open window an open bot sends until the count reaches the threshold: the message that
  -- reaches it still goes and brings the reminder, and all later ones are refused.
  pub reserve_many-budget :
      (n m : ℕ) (s : BotState)
      → s.lock ≡ unlocked
      → no_window s.window ≡ false
      → leb_ℤ s.window l.warn_ms ≡ false
      → l.threshold ≡ pos (s.count + suc n)
      → reserve_many (n + suc m) l s ≡ (
        sent_from n s.count s.window
            ++ sends_then_reminds (s.count + suc n) s.window ∷ refused m reason_count,
        record s { lock = locked reason_count true; count = s.count + suc n },
      )
  unfolding reserve_many sent_from
  reserve_many-budget zero m s e here early t =
      let one : s.count + 1 ≡ suc s.count = omega arith in
      let many : zero + suc m ≡ suc m = omega arith in
      let last = last_one s e here early (omega (arith, ap pos_part t, ap neg_part t)) in
      simp (
        one,
        many,
        last,
        refused_many m (record s { lock = locked reason_count true; count = suc s.count })
            reason_count true refl,
      )
  reserve_many-budget (suc n) m s e here early t =
      let more : suc n + suc m ≡ suc (n + suc m) = omega arith in
      let shifted : s.count + suc (suc n) ≡ suc s.count + suc n = omega arith in
      let rest =
        reserve_many-budget n m (record s { count = suc s.count }) e here early
          (t ∙ ap pos shifted) in
      simp
        (more, shifted, sent_one s e here early (omega (arith, ap pos_part t, ap neg_part t)), rest)

  -- A reservation whose send fails is taken back whole: the release restores the state.
  pub release-reserve :
      (n : ℕ) (s : BotState)
      → s.lock ≡ unlocked
      → Sends n (reserve l s).0
      → release (reserve l s).1 ≡ s
  unfolding reserve reserve_from reserve_unlocked count_one release release_lock
  release-reserve n s e h = ground (arith, text_eq_refl reason_count)

  pub reserve-count : (s : BotState) → (reserve l s).1.count ≤ suc s.count
  unfolding reserve reserve_from reserve_unlocked count_one
  reserve-count s = ground arith

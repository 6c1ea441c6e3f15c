-- ===== src/Protection/RuntimeGuard/Switching.antt =====
-- Retiring a generation, and switching the guard off, keeps the clients in order.
use webot_msg.Common.{
  ℕ, suc, ◌<◌, ◌≡◌, refl, ◌∙◌, Bool, true, false, not, ◌||◌, ◌==◌, ap, inl, inr, ◌⊎◌, arith,
  Bool-cases, Option, none, some, ltb,
}
use webot_msg.Protection.RuntimeGuard.{
  GuardGeneration, RuntimeGuard, set, close_redis_client, retire_locked, retire_and_close, disable,
  switched_off, put_generation,
}
use webot_msg.Protection.RuntimeGuard.Lifecycle.{
  IsOpen, IsClosed, Sound, Counted, Current, is_current, touched, touched-Sound, touched-Counted,
}

-- What holds of the runtime guard while no method runs.
pub record Orderly (s : RuntimeGuard) : Type 0 where
  pub sound : Sound s
  pub counted : Counted s
  pub currency : Current s

-- A generation that is used is open, and stays so when it is retired.
used_stays :
    (gen : GuardGeneration) (n : ℕ)
    → ltb 0 gen.refs ≡ true
    → IsOpen gen n ⊎ IsClosed gen n
    → IsOpen (record gen { retired = true }) n ⊎ IsClosed (record gen { retired = true }) n
used_stays gen n e (inl (held, never, busy)) = inl (held, never, ground arith)
used_stays gen n e (inr (gone, once, idle)) = absurd (ground arith)

idle_now : (n : ℕ) → ltb 0 n ≡ false → (n == 0) ≡ true
idle_now n e = ground arith

pub closed_once : (f : ℕ → ℕ) (c : ℕ) → f c ≡ 0 → set f c (suc (f c)) c ≡ 1
closed_once f c e = ground arith

module _ (s : RuntimeGuard) (a : ℕ) (inside : a < s.allocated) (h : Sound s) (c : Counted s) where
  kept :
      (gen : GuardGeneration) (closings : ℕ → ℕ)
      → gen.guard ≡ (s.generations a).guard
      → gen.refs ≡ (s.generations a).refs
      → IsOpen gen (closings gen.guard.client) ⊎ IsClosed gen (closings gen.guard.client)
      → ((k : ℕ) → (k == gen.guard.client) ≡ false → closings k ≡ s.closings k)
      → Sound (touched s a gen closings) × Counted (touched s a gen closings)
  kept gen closings same refs alive others = (
    touched-Sound s a gen closings inside same alive others h,
    touched-Counted s a gen closings inside same alive others h (refs ∙ c a inside)
        (λ b i e. c b i),
  )

  abbrev mine : ℕ
  mine = (s.generations a).guard.client

  retire-Sound : Sound (retire_and_close (some a) s) × Counted (retire_and_close (some a) s)
  unfolding retire_and_close retire_locked close_redis_client touched
  retire-Sound = elim (Bool-cases (ltb 0 (s.generations a).refs)) [
    | inl e ↦ simp e (
        kept (record (s.generations a) { retired = true }) s.closings refl refl
          (used_stays (s.generations a) _ e (h.life a inside)) (λ k o. refl))
    | inr e ↦ elim (h.life a inside) [
      | inl (held, never, busy) ↦
          simp (e, held)
            (kept (record (s.generations a) { retired = true; client = none })
              (set s.closings mine (suc (s.closings mine))) refl refl
              (inr (refl, closed_once s.closings mine never, idle_now _ e)) (λ k o. simp o refl))
      | inr (gone, once, idle) ↦
          simp (e, gone)
            (kept (record (s.generations a) { retired = true; client = none }) s.closings refl refl
              (inr (refl, once, idle_now _ e)) (λ k o. refl))
    ]
  ]

pub retire_any :
    (s : RuntimeGuard) (old : Option ℕ)
    → ((a : ℕ) → old ≡ some a → a < s.allocated)
    → Sound s
    → Counted s
    → Sound (retire_and_close old s) × Counted (retire_and_close old s)
unfolding retire_and_close retire_locked close_redis_client
retire_any s none inside h c = (h, c)
retire_any s (some a) inside h c = retire-Sound s a (inside a refl) h c

close_keeps :
    (c : Option ℕ) (s : RuntimeGuard)
    → ((close_redis_client c s).current ≡ s.current)
      × ((close_redis_client c s).allocated ≡ s.allocated)
      × ((close_redis_client c s).generations ≡ s.generations)
unfolding close_redis_client
close_keeps none s = (refl, refl, refl)
close_keeps (some c) s = (refl, refl, refl)

abbrev idle_generation : GuardGeneration → GuardGeneration
idle_generation gen = record gen { retired = true; client = none }

retired_set :
    (s : RuntimeGuard) (a b : ℕ) (gen : GuardGeneration)
    → gen.retired ≡ true
    → (set s.generations a gen b).retired ≡ ((b == a) || (s.generations b).retired)
retired_set s a b gen e = ground arith

-- Only the old generation becomes retired.
pub retired_after :
    (s : RuntimeGuard) (old : Option ℕ) (b : ℕ)
    → ((retire_and_close old s).current ≡ s.current)
      × ((retire_and_close old s).allocated ≡ s.allocated)
      × (((retire_and_close old s).generations b).retired
          ≡ (is_current old b || (s.generations b).retired))
unfolding retire_and_close retire_locked close_redis_client
retired_after s none b = (refl, refl, refl)
retired_after s (some a) b = elim (Bool-cases (ltb 0 (s.generations a).refs)) [
  | inl e ↦
      simp e (refl, refl, retired_set s a b (record (s.generations a) { retired = true }) refl)
  | inr e ↦
      let (c, l, g) =
        close_keeps (s.generations a).client
          (put_generation s a (idle_generation (s.generations a))) in
      simp e (
        c,
        l,
        ap (λ f. (f b).retired) g ∙ retired_set s a b (idle_generation (s.generations a)) refl,
      )
]

pub either_way : (b : Bool) → (b || not b) ≡ true
either_way true = refl
either_way false = refl

pub disable-Orderly : (s : RuntimeGuard) → Orderly s → Orderly (disable s)
unfolding disable
disable-Orderly s o =
    let off : Sound (switched_off s) = record {
      life = o.sound.life;
      current_in = λ a e. absurd (cc);
      owned = o.sound.owned;
      apart = o.sound.apart;
      unmade = o.sound.unmade;
      ranged = o.sound.ranged;
    } in
    let (h, c) = retire_any (switched_off s) s.current o.sound.current_in off o.counted in
    record {
      sound = h;
      counted = c;
      currency = λ b i.
          let (cur, l, r) = retired_after (switched_off s) s.current b in
          let was = o.currency b (rw (← l) i) in
          rw (r, cur, was) (either_way (is_current s.current b));
    }

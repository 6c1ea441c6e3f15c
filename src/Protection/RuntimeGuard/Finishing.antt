-- ===== src/Protection/RuntimeGuard/Finishing.antt =====
-- Finishing an operation keeps the clients in order.
use webot_msg.Common.{
  ℕ, suc, ◌-◌, ◌<◌, ◌≡◌, refl, ◌∙◌, Bool, true, false, ◌&&◌, ◌==◌, inl, inr, ◌⊎◌, arith, Bool-cases,
  none,
}
use webot_msg.Protection.RuntimeGuard.{
  GuardGeneration, RuntimeOperation, RuntimeGuard, set, close_redis_client, finish_operation,
  done_runtime,
}
use webot_msg.Protection.RuntimeGuard.Counts.{in_use-set, in_use_positive, uses-busy}
use webot_msg.Protection.RuntimeGuard.Lifecycle.{
  IsOpen, IsClosed, Sound, touched, touched-Sound, touched-Counted,
}
use webot_msg.Protection.RuntimeGuard.Switching.{Orderly, closed_once}
use webot_msg.Protection.RuntimeGuard.Operations.{uses-done, uses-elsewhere, set_retired}

and_swap : (a b : Bool) → (a && b) ≡ (b && a)
and_swap true true = refl
and_swap true false = refl
and_swap false true = refl
and_swap false false = refl

-- A generation that is used has its open client.
pub used-IsOpen :
    (gen : GuardGeneration) (n : ℕ) → 0 < gen.refs → IsOpen gen n ⊎ IsClosed gen n → IsOpen gen n
used-IsOpen gen n used (inl held) = held
used-IsOpen gen n used (inr (gone, once, idle)) = absurd (ground arith)

module _ (s : RuntimeGuard) (i : ℕ) (o : Orderly s) (begun : i < s.begun)
    (busy : (s.operations i).finished ≡ false) where
  abbrev here : ℕ
  here = (s.operations i).generation

  abbrev spent : RuntimeOperation
  spent = record (s.operations i) { finished = true }

  abbrev after : RuntimeGuard
  after = record s { operations = set s.operations i spent }

  inside : here < s.allocated
  inside = o.sound.ranged i begun

  used : 0 < (s.generations here).refs
  used = omega (arith, o.counted here inside, in_use_positive s.begun i s.operations begun busy)

  after-Sound : Sound after
  after-Sound = record {
    life = o.sound.life;
    current_in = o.sound.current_in;
    owned = o.sound.owned;
    apart = o.sound.apart;
    unmade = o.sound.unmade;
    ranged = λ k b. elim (Bool-cases (k == i)) [
      | inl q ↦ simp q inside
      | inr q ↦ let old = o.sound.ranged k b in simp q old
    ];
  }

  -- The generation has one reference less, and may have let go of its client.
  finished-Orderly :
      (gen : GuardGeneration) (closings : ℕ → ℕ)
      → gen.guard ≡ (s.generations here).guard
      → gen.refs ≡ (s.generations here).refs - 1
      → gen.retired ≡ (s.generations here).retired
      → IsOpen gen (closings gen.guard.client) ⊎ IsClosed gen (closings gen.guard.client)
      → ((k : ℕ) → (k == gen.guard.client) ≡ false → closings k ≡ s.closings k)
      → Orderly (touched after here gen closings)
  unfolding touched
  finished-Orderly gen closings same refs retired alive others =
      let count = λ (b : ℕ). in_use-set b s.begun i spent s.operations begun in
      let h = after-Sound in
      record {
        sound = touched-Sound after here gen closings inside same alive others h;
        counted =
            touched-Counted after here gen closings inside same alive others h
              (omega (
                arith,
                refs,
                count here,
                o.counted here inside,
                uses-busy (s.operations i) busy,
                uses-done here (s.operations i),
              ))
              (λ b k e. omega (
                arith,
                count b,
                o.counted b k,
                uses-elsewhere b (s.operations i) e,
                uses-done b (s.operations i),
              ));
        currency = λ b k. set_retired s.generations here b gen retired ∙ o.currency b k;
      }

  finish-Orderly : Orderly (finish_operation here after)
  unfolding finish_operation close_redis_client touched
  finish-Orderly =
      let gen = s.generations here in
      let (held, never, serving) = used-IsOpen gen _ used (o.sound.life here inside) in
      let mine = gen.guard.client in
      elim (Bool-cases ((gen.refs - 1 == 0) && gen.retired)) [
        | inl e ↦
            simp (e, held)
              (finished-Orderly (record gen { refs = gen.refs - 1; client = none })
                (set s.closings mine (suc (s.closings mine))) refl refl refl
                (inr (
                  refl,
                  closed_once s.closings mine never,
                  and_swap gen.retired (gen.refs - 1 == 0) ∙ e,
                ))
                (λ k q. simp q refl))
        | inr e ↦ simp e (
            finished-Orderly (record gen { refs = gen.refs - 1 }) s.closings refl refl refl
              (inl (held, never, and_swap gen.retired (gen.refs - 1 == 0) ∙ e)) (λ k q. refl))
      ]

pub done_runtime-Orderly :
    (s : RuntimeGuard) (i : ℕ) → i < s.begun → Orderly s → Orderly (done_runtime i s)
unfolding done_runtime
done_runtime-Orderly s i begun o = elim (Bool-cases (s.operations i).finished) [
  | inl e ↦ simp e o
  | inr e ↦ simp e (finish-Orderly s i o begun e)
]

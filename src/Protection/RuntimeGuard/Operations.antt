-- ===== src/Protection/RuntimeGuard/Operations.antt =====
-- Beginning and finishing an operation keeps the clients in order.
use webot_msg.Common.{
  ℕ, suc, ◌+◌, ◌≡◌, refl, sym, ◌∙◌, true, false, not, ◌==◌, ==_iff, ap, inl, inr, ◌⊎◌, arith,
  Bool-cases, Option, none, some,
}
use webot_msg.Protection.RuntimeGuard.{
  GuardGeneration, RuntimeOperation, RuntimeGuard, set, begin_operation, begin_on,
}
use webot_msg.Protection.RuntimeGuard.Counts.{in_use, uses, in_use-set-later}
use webot_msg.Protection.RuntimeGuard.Lifecycle.{
  IsOpen, IsClosed, Sound, is_current, touched, touched-Sound, touched-Counted,
}
use webot_msg.Protection.RuntimeGuard.Switching.{Orderly}
use webot_msg.Protection.RuntimeGuard.Enabling.{below}

pub uses-done : (b : ℕ) (o : RuntimeOperation) → uses b (record o { finished = true }) ≡ 0
unfolding uses
uses-done b o = refl

uses-new : (a : ℕ) → uses a (record { generation = a; finished = false }) ≡ 1
unfolding uses
uses-new a = ground arith

pub uses-elsewhere : (b : ℕ) (o : RuntimeOperation) → (b == o.generation) ≡ false → uses b o ≡ 0
unfolding uses
uses-elsewhere b o e = ground arith

in_use-begun :
    (b n : ℕ) (o : RuntimeOperation) (f : ℕ → RuntimeOperation)
    → in_use b (suc n) (set f n o) ≡ in_use b n f + uses b o
in_use-begun b n o f = let before = in_use-set-later b n n o f (omega arith) in ground arith

own_current : (a : ℕ) → not (a == a) ≡ false
own_current a = ground arith

-- A generation changes in its references only, so no other becomes retired.
pub set_retired :
    (f : ℕ → GuardGeneration) (a b : ℕ) (gen : GuardGeneration)
    → gen.retired ≡ (f a).retired
    → (set f a gen b).retired ≡ (f b).retired
set_retired f a b gen e = elim (Bool-cases (b == a)) [
  | inl q ↦ simp q (e ∙ sym (ap (λ k. (f k).retired) ((==_iff b a).0 q)))
  | inr q ↦ simp q refl
]

serving_stays :
    (gen : GuardGeneration) (n : ℕ)
    → gen.retired ≡ false
    → IsOpen gen n ⊎ IsClosed gen n
    → IsOpen (record gen { refs = suc gen.refs }) n
serving_stays gen n e (inl (held, never, busy)) = (held, never, ground arith)
serving_stays gen n e (inr (gone, once, idle)) = absurd (ground arith)

begin_on-Orderly :
    (s : RuntimeGuard) (a : ℕ) → s.current ≡ some a → Orderly s → Orderly (begin_on (some a) s).1
unfolding begin_on touched
begin_on-Orderly s a at o =
    let inside = o.sound.current_in a at in
    let new : RuntimeOperation = record { generation = a; finished = false } in
    let s' : RuntimeGuard = record s {
      operations = set s.operations s.begun new;
      begun = suc s.begun;
    } in
    let h : Sound s' = record {
      life = o.sound.life;
      current_in = o.sound.current_in;
      owned = o.sound.owned;
      apart = o.sound.apart;
      unmade = o.sound.unmade;
      ranged = λ i b. elim (Bool-cases (i == s.begun)) [
        | inl q ↦ simp q inside
        | inr q ↦ let old = o.sound.ranged i (below i s.begun b q) in simp q old
      ];
    } in
    let gen : GuardGeneration = record (s.generations a) { refs = suc (s.generations a).refs } in
    let serving : (s.generations a).retired ≡ false =
      o.currency a inside ∙ (ap (λ c. not (is_current c a)) at ∙ own_current a) in
    let alive = inl (serving_stays (s.generations a) _ serving (o.sound.life a inside)) in
    let count = λ (b : ℕ). in_use-begun b s.begun new s.operations in
    record {
      sound = touched-Sound s' a gen s.closings inside refl alive (λ c e. refl) h;
      counted =
          touched-Counted s' a gen s.closings inside refl alive (λ c e. refl) h
            (omega (arith, count a, o.counted a inside, uses-new a))
            (λ b i e. omega (arith, count b, o.counted b i, uses-elsewhere b new e));
      currency = λ b i. set_retired s.generations a b gen refl ∙ o.currency b i;
    }

begin_current :
    (s : RuntimeGuard) (current : Option ℕ)
    → s.current ≡ current
    → Orderly s
    → Orderly (begin_on current s).1
unfolding begin_on
begin_current s none e o = o
begin_current s (some a) e o = begin_on-Orderly s a e o

pub begin_operation-Orderly : (s : RuntimeGuard) → Orderly s → Orderly (begin_operation s).1
unfolding begin_operation
begin_operation-Orderly s o = elim (Bool-cases s.enabled) [
  | inl e ↦ simp e (begin_current s s.current refl o)
  | inr e ↦ simp e o
]

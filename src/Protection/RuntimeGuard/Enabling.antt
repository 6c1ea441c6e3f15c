-- ===== src/Protection/RuntimeGuard/Enabling.antt =====
-- Switching the guard on keeps the clients in order.
use webot_msg.Common.{
  ℕ, suc, ◌<◌, ◌≡◌, refl, sym, ◌∙◌, true, false, ◌==◌, ==_iff, ap, inl, inr, arith, Bool-cases,
  Option, none, some, Error,
}
use webot_msg.Protection.RuntimeGuard.{
  GuardGeneration, RuntimeGuard, set, close_redis_client, new_generation, installed, BoundGuard,
  EnableConfig, Dialer, enable, guard_config, pinged, dialled,
}
use webot_msg.Protection.RuntimeGuard.Counts.{in_use, in_use-none}
use webot_msg.Protection.RuntimeGuard.Lifecycle.{Sound, Counted, is_current, eqb_false}
use webot_msg.Protection.RuntimeGuard.Switching.{Orderly, retire_any, retired_after, either_way}

client_new :
    (f : ℕ → GuardGeneration) (n b : ℕ) (gen : GuardGeneration)
    → (b == n) ≡ true
    → (set f n gen b).guard.client ≡ gen.guard.client
client_new f n b gen e = simp e refl

client_old :
    (f : ℕ → GuardGeneration) (n b : ℕ) (gen : GuardGeneration)
    → (b == n) ≡ false
    → (set f n gen b).guard.client ≡ (f b).guard.client
client_old f n b gen e = simp e refl

pub below : (b n : ℕ) → b < suc n → (b == n) ≡ false → b < n
below b n i q = ground arith

installed-Sound :
    (s : RuntimeGuard) (guard : BoundGuard)
    → guard.client ≡ s.clients
    → Sound s
    → Counted s
    → let s' = installed guard (record s { clients = suc s.clients }) in Sound s' × Counted s'
installed-Sound s guard e h c =
    let new = s.allocated in
    let at_new =
      λ (b : ℕ) (y : (b == new) ≡ true). client_new s.generations new b (new_generation guard) y in
    let at_old =
      λ (b : ℕ) (y : (b == new) ≡ false). client_old s.generations new b (new_generation guard) y in
    let unused = in_use-none new s.begun s.operations h.ranged in
    (
      record {
        life = λ b i. elim (Bool-cases (b == new)) [
          | inl q ↦
              let unmade = ap s.closings e ∙ h.unmade s.clients (omega arith) in
              simp q (inl (refl, unmade, refl))
          | inr q ↦ simp q (h.life b (below b new i q))
        ];
        current_in = λ a q. let same : new ≡ a = cc in omega (arith, same);
        owned = λ b i. elim (Bool-cases (b == new)) [
          | inl q ↦ simp q (omega (arith, e))
          | inr q ↦ let old = h.owned b (below b new i q) in simp q (omega (arith, old))
        ];
        apart = λ a b i j q. elim (Bool-cases (a == new)) [
          | inl x ↦ elim (Bool-cases (b == new)) [
            | inl y ↦ (==_iff a new).0 x ∙ sym ((==_iff b new).0 y)
            | inr y ↦
                let old = h.owned b (below b new j y) in
                let same : guard.client ≡ (s.generations b).guard.client =
                  sym (at_new a x) ∙ (q ∙ at_old b y) in
                absurd (omega (arith, old, e, same))
          ]
          | inr x ↦
              let old = h.owned a (below a new i x) in
              elim (Bool-cases (b == new)) [
                | inl y ↦
                    let same : (s.generations a).guard.client ≡ guard.client =
                      sym (at_old a x) ∙ (q ∙ at_new b y) in
                    absurd (omega (arith, old, e, same))
                | inr y ↦
                    h.apart a b (below a new i x) (below b new j y)
                      (sym (at_old a x) ∙ (q ∙ at_old b y))
              ]
        ];
        unmade = λ k i. h.unmade k (omega (arith, i));
        ranged = λ i j. omega (arith, h.ranged i j);
      },
      λ b i. elim (Bool-cases (b == new)) [
        | inl q ↦
            simp q (sym (ap (λ k. in_use k s.begun s.operations) ((==_iff b new).0 q) ∙ unused))
        | inr q ↦ simp q (c b (below b new i q))
      ],
    )

current_below :
    (o : Option ℕ) (n b : ℕ)
    → ((a : ℕ) → o ≡ some a → a < n)
    → (b == n) ≡ true
    → is_current o b ≡ false
current_below none n b h e = refl
current_below (some a) n b h e = let low = h a refl in ground arith

-- A client that is made, and closed since it does not answer.
failed-Orderly :
    (s : RuntimeGuard) (e : Error) (cfg : EnableConfig)
    → Orderly s
    → Orderly (pinged (some e) cfg s.clients (record s { clients = suc s.clients })).1
unfolding pinged close_redis_client
failed-Orderly s e cfg o = record {
  sound = record {
    life = λ a i.
        let other =
          eqb_false (s.generations a).guard.client s.clients
            (λ q. omega (arith, q, o.sound.owned a i)) in
        simp other (o.sound.life a i);
    current_in = o.sound.current_in;
    owned = λ a i. omega (arith, o.sound.owned a i);
    apart = o.sound.apart;
    unmade = λ c i.
        let other = eqb_false c s.clients (λ q. omega (arith, q, i)) in
        simp other (o.sound.unmade c (omega (arith, i)));
    ranged = o.sound.ranged;
  };
  counted = o.counted;
  currency = o.currency;
}

installed-Orderly :
    (s : RuntimeGuard) (cfg : EnableConfig)
    → Orderly s
    → Orderly (pinged none cfg s.clients (record s { clients = suc s.clients })).1
unfolding pinged
installed-Orderly s cfg o =
    let guard : BoundGuard = record { client = s.clients; config = guard_config cfg } in
    let new = installed guard (record s { clients = suc s.clients }) in
    let (h, c) = installed-Sound s guard refl o.sound o.counted in
    let inside : (a : ℕ) → s.current ≡ some a → a < suc s.allocated =
      λ a e. omega (arith, o.sound.current_in a e) in
    let (h', c') = retire_any new s.current inside h c in
    record {
      sound = h';
      counted = c';
      currency = λ b i.
          let (cur, l, r) = retired_after new s.current b in
          elim (Bool-cases (b == s.allocated)) [
            | inl q ↦
                let past = current_below s.current s.allocated b o.sound.current_in q in
                rw (r, cur) (simp (q, past) refl)
            | inr q ↦
                let was = o.currency b (below b s.allocated (rw (← l) i) q) in
                rw (r, cur) (simp (q, was) (either_way (is_current s.current b)))
          ];
    }

ping-Orderly :
    (s : RuntimeGuard) (answer : Option Error) (cfg : EnableConfig)
    → Orderly s
    → Orderly (pinged answer cfg s.clients (record s { clients = suc s.clients })).1
ping-Orderly s (some e) cfg o = failed-Orderly s e cfg o
ping-Orderly s none cfg o = installed-Orderly s cfg o

dial-Orderly :
    (s : RuntimeGuard) (answer : Option Error) (d : Dialer) (cfg : EnableConfig)
    → Orderly s
    → Orderly (dialled answer d cfg s).1
unfolding dialled
dial-Orderly s (some e) d cfg o = o
dial-Orderly s none d cfg o = ping-Orderly s (d.ping s.clients) cfg o

pub enable-Orderly :
    (s : RuntimeGuard) (d : Dialer) (cfg : EnableConfig) → Orderly s → Orderly (enable d cfg s).1
unfolding enable
enable-Orderly s d cfg o = dial-Orderly s (d.dial cfg.redis_url cfg.redis_password) d cfg o

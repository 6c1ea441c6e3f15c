-- ===== src/Protection/RuntimeGuard/Lifecycle.antt =====
-- What every method of the runtime guard keeps.
use webot_msg.Common.{
  ℕ, ◌≤◌, ◌<◌, ◌≡◌, ◌≢◌, refl, sym, ◌∙◌, Bool, true, false, ◌&&◌, not, ◌==◌, ==_iff, ap, inl, inr,
  ◌⊎◌, arith, Bool-cases, Option, none, some,
}
use webot_msg.Protection.RuntimeGuard.{GuardGeneration, RuntimeGuard, set, BoundGuard}
use webot_msg.Protection.RuntimeGuard.Counts.{in_use}

-- A generation has its client and it is open, or has let go of it and it is closed, once.
abbrev pub IsOpen : GuardGeneration → ℕ → Type 0
IsOpen gen n =
    (gen.client ≡ some gen.guard.client) × (n ≡ 0) × ((gen.retired && (gen.refs == 0)) ≡ false)

abbrev pub IsClosed : GuardGeneration → ℕ → Type 0
IsClosed gen n = (gen.client ≡ none) × (n ≡ 1) × ((gen.retired && (gen.refs == 0)) ≡ true)

pub record Sound (s : RuntimeGuard) : Type 0 where
  pub life :
      (a : ℕ)
      → a < s.allocated
      → IsOpen (s.generations a) (s.closings (s.generations a).guard.client)
        ⊎ IsClosed (s.generations a) (s.closings (s.generations a).guard.client)
  pub current_in : (a : ℕ) → s.current ≡ some a → a < s.allocated
  pub owned : (a : ℕ) → a < s.allocated → (s.generations a).guard.client < s.clients
  pub apart :
      (a b : ℕ)
      → a < s.allocated
      → b < s.allocated
      → (s.generations a).guard.client ≡ (s.generations b).guard.client
      → a ≡ b
  pub unmade : (c : ℕ) → s.clients ≤ c → s.closings c ≡ 0
  pub ranged : (i : ℕ) → i < s.begun → (s.operations i).generation < s.allocated

-- The references of a generation are the operations at work on it.
abbrev pub Counted : RuntimeGuard → Type 0
Counted s = (a : ℕ) → a < s.allocated → (s.generations a).refs ≡ in_use a s.begun s.operations

-- The current generation is the one that is not retired.
abbrev pub is_current : Option ℕ → ℕ → Bool
is_current none a = false
is_current (some b) a = a == b

abbrev pub Current : RuntimeGuard → Type 0
Current s = (a : ℕ) → a < s.allocated → (s.generations a).retired ≡ not (is_current s.current a)

pub eqb_false : (m n : ℕ) → m ≢ n → (m == n) ≡ false
eqb_false m n h = ground arith

pub neq_of : (m n : ℕ) → (m == n) ≡ false → m ≢ n
neq_of m n e h = ground arith

-- One generation changes, and only its own client may be closed.
unfoldable pub touched : RuntimeGuard → ℕ → GuardGeneration → (ℕ → ℕ) → RuntimeGuard
touched s a gen closings = record s { generations = set s.generations a gen; closings = closings }

module _ (s : RuntimeGuard) (a : ℕ) (gen : GuardGeneration) (closings : ℕ → ℕ)
    (inside : a < s.allocated) (same : gen.guard ≡ (s.generations a).guard)
    (alive : IsOpen gen (closings gen.guard.client) ⊎ IsClosed gen (closings gen.guard.client))
    (others : (c : ℕ) → (c == gen.guard.client) ≡ false → closings c ≡ s.closings c)
    (h : Sound s) where
  same_client : gen.guard.client ≡ (s.generations a).guard.client
  same_client = ap (λ (g : BoundGuard). g.client) same

  client_apart :
      (b : ℕ)
      → b < s.allocated
      → (b == a) ≡ false
      → ((s.generations b).guard.client == gen.guard.client) ≡ false
  client_apart b i e = eqb_false _ _ (λ q. neq_of b a e (h.apart b a i inside (q ∙ same_client)))

  client_kept : (b : ℕ) → (set s.generations a gen b).guard.client ≡ (s.generations b).guard.client
  client_kept b = elim (Bool-cases (b == a)) [
    | inl e ↦
        let here = ap (λ k. (s.generations k).guard.client) ((==_iff b a).0 e) in
        simp e (same_client ∙ sym here)
    | inr e ↦ simp e refl
  ]

  life_kept :
      (b : ℕ)
      → b < s.allocated
      → IsOpen (set s.generations a gen b) (closings (set s.generations a gen b).guard.client)
        ⊎ IsClosed (set s.generations a gen b) (closings (set s.generations a gen b).guard.client)
  life_kept b i = elim (Bool-cases (b == a)) [
    | inl e ↦ simp e alive
    | inr e ↦ simp (e, others _ (client_apart b i e)) (h.life b i)
  ]

  pub touched-Sound : Sound (touched s a gen closings)
  unfolding touched
  touched-Sound = record {
    life = life_kept;
    current_in = h.current_in;
    owned = λ b i. rw (client_kept b) (h.owned b i);
    apart = λ b c i j e. h.apart b c i j (rw (← client_kept b, ← client_kept c) e);
    unmade = λ c i.
        let low = h.owned a inside in
        others c (eqb_false _ _ (λ q. omega (arith, q, same_client, low, i))) ∙ h.unmade c i;
    ranged = h.ranged;
  }

  -- The generations but one keep their references.
  pub touched-Counted :
      gen.refs ≡ in_use a s.begun s.operations
      → ((b : ℕ)
          → b < s.allocated
          → (b == a) ≡ false
          → (s.generations b).refs ≡ in_use b s.begun s.operations)
      → Counted (touched s a gen closings)
  unfolding touched
  touched-Counted count rest b i = elim (Bool-cases (b == a)) [
    | inl e ↦ simp e (count ∙ sym (ap (λ k. in_use k s.begun s.operations) ((==_iff b a).0 e)))
    | inr e ↦ simp e (rest b i e)
  ]

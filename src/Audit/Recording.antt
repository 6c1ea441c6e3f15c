-- ===== src/Audit/Recording.antt =====
-- Where the records of the audit go, and which settings a recorder works with.
use webot_msg.Common.{
  ℕ, ◌≡◌, ◌≢◌, refl, ap, arith, false, ◌⊎◌, inl, inr, Option, none, some, ◌∷◌, ◌++◌, Text, codes,
  is_empty, append_cancel_left, Error, Result, Bool-cases,
}
use webot_msg.Common.Int.{pos, ◌<ℤ◌, leb_ℤ}
use webot_msg.Common.Strings.{trim_space}
use webot_msg.Protection.Keys.{state_key, active_key, queue_key}
use webot_msg.Audit.{
  EnableConfig, Recorder, Clients, audit_time_key, audit_body_key, installed, with_client,
  enable_audit, disable_audit,
}

abbrev eighth : Text → ℕ
eighth (a ∷ (b ∷ (c ∷ (d ∷ (e ∷ (f ∷ (g ∷ (h ∷ s)))))))) = h
eighth _ = 0

abbrev second : Text → ℕ
second (c ∷ (d ∷ s)) = d
second _ = 0

prefixed_apart : (prefix s t : Text) → second s ≢ second t → prefix ++ s ≢ prefix ++ t
prefixed_apart prefix s t n e = n (ap second (append_cancel_left prefix s t e))

-- Under one prefix, a record of a time has a key of its own for each id, and so has a record of a
-- body; no key of a time is one of a body, and neither is a key of the protection.
pub audit_keys_disjoint :
    (prefix id id' bot : Text)
    → (audit_time_key prefix id ≡ audit_time_key prefix id' → id ≡ id')
      × (audit_body_key prefix id ≡ audit_body_key prefix id' → id ≡ id')
      × (audit_time_key prefix id ≢ audit_body_key prefix id')
      × (audit_time_key prefix id ≢ state_key prefix bot)
      × (audit_time_key prefix id ≢ active_key prefix bot)
      × (audit_time_key prefix id ≢ queue_key prefix bot)
      × (audit_body_key prefix id ≢ state_key prefix bot)
      × (audit_body_key prefix id ≢ active_key prefix bot)
      × (audit_body_key prefix id ≢ queue_key prefix bot)
unfolding audit_time_key audit_body_key state_key active_key queue_key
audit_keys_disjoint prefix id id' bot = (
  λ e. append_cancel_left (codes ":audit:time:") _ _ (append_cancel_left prefix _ _ e),
  λ e. append_cancel_left (codes ":audit:body:") _ _ (append_cancel_left prefix _ _ e),
  λ e. absurd (omega (arith, ap eighth (append_cancel_left prefix _ _ e))),
  prefixed_apart prefix _ _ (λ e. omega (arith, e)),
  prefixed_apart prefix _ _ (λ e. omega (arith, e)),
  prefixed_apart prefix _ _ (λ e. omega (arith, e)),
  prefixed_apart prefix _ _ (λ e. omega (arith, e)),
  prefixed_apart prefix _ _ (λ e. omega (arith, e)),
  prefixed_apart prefix _ _ (λ e. omega (arith, e)),
)

-- A recorder that records has a prefix and positive lifetimes.
pub record Ready (r : Recorder) : Type 0 where
  pub prefix_there : (r.client ≡ none) ⊎ (is_empty r.cfg.key_prefix ≡ false)
  pub time_ttl_positive : (r.client ≡ none) ⊎ (pos 0 <ℤ r.cfg.time_ttl)
  pub body_ttl_positive : (r.client ≡ none) ⊎ (pos 0 <ℤ r.cfg.body_ttl)

module _ {W : Type 0} (redis : Clients W) (given : EnableConfig) (r : Recorder) (w : W) where
  -- A recorder stays as it was when it cannot be enabled.
  pub record Enabling (out : Option Error × (Recorder × W)) : Type 0 where
    pub kept_or_none : (out.0 ≡ none) ⊎ (out.1.0 ≡ r)
    pub ready : Ready r → Ready out.1.0
    pub records : out.0 ≡ none → out.1.0.client ≢ none

  with_client-Enabling :
      (cfg : EnableConfig)
      → pos 0 <ℤ cfg.time_ttl
      → pos 0 <ℤ cfg.body_ttl
      → is_empty cfg.key_prefix ≡ false
      → (o : Result ℕ × W) → Enabling (with_client redis cfg r o)
  unfolding with_client installed
  with_client-Enabling cfg t b p o = record {
    kept_or_none = ground arith;
    ready = λ y. record {
      prefix_there = ground arith;
      time_ttl_positive = ground arith;
      body_ttl_positive = ground arith;
    };
    records = ground arith;
  }

  refused-Enabling : (e : Error) → Enabling (some e, (r, w))
  refused-Enabling e = record {
    kept_or_none = inr refl;
    ready = λ y. y;
    records = λ h. ground arith;
  }

  -- An attempt to enable the audit that ends with an error leaves the recorder as it was; one that
  -- ends without leaves a recorder that records; and a recorder that records only with a prefix and
  -- positive lifetimes still does.
  pub enable_audit-Enabling : Enabling (enable_audit redis given r w)
  unfolding enable_audit
  enable_audit-Enabling =
      let cfg = record given { key_prefix = trim_space given.key_prefix } in
      elim (Bool-cases (leb_ℤ given.time_ttl (pos 0))) [
        | inl low ↦ simp low (refused-Enabling _)
        | inr t ↦ elim (Bool-cases (leb_ℤ given.body_ttl (pos 0))) [
          | inl low ↦ simp (t, low) (refused-Enabling _)
          | inr b ↦ elim (Bool-cases (is_empty cfg.key_prefix)) [
            | inl empty ↦ simp (t, b, empty) (refused-Enabling _)
            | inr p ↦
                let done =
                  with_client-Enabling cfg (ground arith) (ground arith) p
                    (redis.new_redis_client cfg.redis_url cfg.redis_password w) in
                simp (t, b, p) done
          ]
        ]
      ]

disable_audit-Ready :
    {W : Type 0} (redis : Clients W) (r : Recorder) (w : W) → Ready (disable_audit redis r w).0
unfolding disable_audit
disable_audit-Ready redis r w = record {
  prefix_there = inl refl;
  time_ttl_positive = inl refl;
  body_ttl_positive = inl refl;
}

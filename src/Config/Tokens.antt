-- ===== src/Config/Tokens.antt =====
-- The tokens of the bots.
use webot_msg.Common.{
  ◌≡◌, refl, Bool, true, false, ◌&&◌, not, Option, none, some, [], ◌∷◌, inl, inr, ◌⊎◌, Text,
  is_empty, Error, Result, ok, err, Bool-cases,
}
use webot_msg.Config.{UserConfig}
use webot_msg.Config.Store.{
  Bots, Store, give_tokens, token_given, ensure_api_tokens, saved_tokens, tokened, walked,
}
use webot_msg.Config.Bots.{save_locked-bots}

-- Every bot of the map has a token.
abbrev pub tokens_set : Bots → Bool
tokens_set [] = true
tokens_set ((k, none) ∷ bots) = tokens_set bots
tokens_set ((k, some user) ∷ bots) = not (is_empty user.api_token) && tokens_set bots

Result-cases : (a : Result Text) → ((t : Text) × (a ≡ ok t)) ⊎ ((e : Error) × (a ≡ err e))
Result-cases (ok t) = inl (t, refl)
Result-cases (err e) = inr (e, refl)

module _ {W : Type 0} (generator : W → Result Text × W)
    (full : (w : W) (t : Text) → (generator w).0 ≡ ok t → is_empty t ≡ false) where
  abbrev Walked : (Bool × Option Error) × (Bots × W) → Type 0
  Walked ((changed, e), (bots, w)) = (e ≡ none) → (tokens_set bots ≡ true)

  tokened-Walked :
      (k t : Text) (user : UserConfig) (next : (Bool × Option Error) × (Bots × W))
      → is_empty t ≡ false
      → Walked next
      → Walked (tokened generator (walked generator (record user { api_token = t }) k next))
  tokened-Walked k t user ((changed, none), (bots, w)) e h = λ q. simp e (h refl)
  tokened-Walked k t user ((changed, some error), (bots, w)) e h = λ q. absurd (cc)

  give_tokens-Walked : (bots : Bots) (w : W) → Walked (give_tokens generator bots w)
  unfolding give_tokens token_given
  give_tokens-Walked [] w = λ q. refl
  give_tokens-Walked ((k, none) ∷ bots) w = give_tokens-Walked bots w
  give_tokens-Walked ((k, some user) ∷ bots) w = elim (Bool-cases (is_empty user.api_token)) [
    | inl e ↦ elim (Result-cases (generator w).0) [
      | inl (t, q) ↦
          simp (e, q)
            (tokened-Walked k t user (give_tokens generator bots (generator w).1) (full w t q)
              (give_tokens-Walked bots (generator w).1))
      | inr (error, q) ↦ simp (e, q) (λ h. absurd (cc))
    ]
    | inr e ↦ simp e (give_tokens-Walked bots w)
  ]

  saved-Walked :
      (s : Store) (p : (Bool × Option Error) × (Bots × W))
      → Walked p
      → p.0.1 ≡ none
      → tokens_set (saved_tokens generator p s).1.0.bots ≡ true
  unfolding saved_tokens
  saved-Walked s ((changed, some e), (bots, w)) h q = absurd (cc)
  saved-Walked s ((false, none), (bots, w)) h q = h refl
  saved-Walked s ((true, none), (bots, w)) h q =
      rw (save_locked-bots (record s { bots = bots })) (h refl)

  -- With a generator that never gives an empty token, every bot has a token once the walk over the
  -- bots ended without an error, even if the file cannot be written.
  pub ensure_api_tokens_lem :
      (s : Store) (w : W)
      → (give_tokens generator s.bots w).0.1 ≡ none
      → tokens_set (ensure_api_tokens generator s w).1.0.bots ≡ true
  unfolding ensure_api_tokens
  ensure_api_tokens_lem s w ended =
      saved-Walked s (give_tokens generator s.bots w) (give_tokens-Walked s.bots w) ended

-- ===== src/Protection/Keys.antt =====
-- The keys of a bot (`keys` and `queueKey` of redis_guard.go and queue.go).
use mathlib.Core.List.{reverse, reverse-append}
use webot_msg.Common.{
  ℕ, ◌≡◌, ◌≢◌, refl, sym, ap, ◌∙◌, [], ◌∷◌, ◌++◌, arith, Text, codes, text_eq-ne,
  append_cancel_left, length, length-append,
}
use webot_msg.Protection.Refine.Writes.{Distinct}

-- The tag in braces keeps the keys of a bot in one slot of a cluster.
unfoldable pub key : Text → Text → Text → Text
key prefix bot suffix = prefix ++ (codes ":protect:{" ++ (bot ++ codes "}" ++ suffix))

unfoldable pub state_key : Text → Text → Text
unfolding key
state_key prefix bot = key prefix bot (codes ":state")

unfoldable pub active_key : Text → Text → Text
unfolding key
active_key prefix bot = key prefix bot (codes ":active")

unfoldable pub queue_key : Text → Text → Text
unfolding key
queue_key prefix bot = key prefix bot (codes ":queue")

append_cancel_right : (s t u : Text) → s ++ u ≡ t ++ u → s ≡ t
append_cancel_right [] [] u h = refl
append_cancel_right [] (d ∷ t) u h = absurd (omega (arith, ap length h, length-append t u))
append_cancel_right (c ∷ s) [] u h = absurd (omega (arith, ap length h, length-append s u))
append_cancel_right (c ∷ s) (d ∷ t) u h = let rest = append_cancel_right s t u (cc) in cc

key_suffix :
    (prefix bot bot' s t : Text)
    → key prefix bot s ≡ key prefix bot' t
    → (bot ++ codes "}") ++ s ≡ (bot' ++ codes "}") ++ t
unfolding key
key_suffix prefix bot bot' s t h =
    append_cancel_left (codes ":protect:{") _ _ (append_cancel_left prefix _ _ h)

-- Two bots have no key in common: equal keys of one kind are keys of one bot.
pub key_injective :
    (prefix bot bot' suffix : Text) → key prefix bot suffix ≡ key prefix bot' suffix → bot ≡ bot'
key_injective prefix bot bot' suffix h =
    append_cancel_right bot bot' (codes "}")
      (append_cancel_right _ _ suffix (key_suffix prefix bot bot' suffix suffix h))

reversed_suffix :
    (a b s t : Text) → a ++ s ≡ b ++ t → reverse s ++ reverse a ≡ reverse t ++ reverse b
reversed_suffix a b s t h = sym (reverse-append a s) ∙ (ap reverse h ∙ reverse-append b t)

abbrev second : Text → ℕ
second [] = 0
second (c ∷ []) = 0
second (c ∷ (d ∷ s)) = d

-- The ends of the keys of different kinds differ, read from behind.
ends_apart :
    (prefix bot bot' s t : Text)
    → ((a b : Text) → reverse s ++ a ≢ reverse t ++ b)
    → key prefix bot s ≢ key prefix bot' t
ends_apart prefix bot bot' s t apart h =
    apart _ _ (
      reversed_suffix (bot ++ codes "}") (bot' ++ codes "}") s t (key_suffix prefix bot bot' s t h))

pub state_key-ne-active_key :
    (prefix bot bot' : Text) → state_key prefix bot ≢ active_key prefix bot'
unfolding state_key active_key
state_key-ne-active_key prefix bot bot' =
    ends_apart prefix bot bot' (codes ":state") (codes ":active")
      (λ a b h. absurd (omega (arith, ap second h)))

pub state_key-ne-queue_key : (prefix bot bot' : Text) → state_key prefix bot ≢ queue_key prefix bot'
unfolding state_key queue_key
state_key-ne-queue_key prefix bot bot' =
    ends_apart prefix bot bot' (codes ":state") (codes ":queue")
      (λ a b h. absurd (omega (arith, ap second h)))

pub active_key-ne-queue_key :
    (prefix bot bot' : Text) → active_key prefix bot ≢ queue_key prefix bot'
unfolding active_key queue_key
active_key-ne-queue_key prefix bot bot' =
    ends_apart prefix bot bot' (codes ":active") (codes ":queue")
      (λ a b h. absurd (omega (arith, ap second h)))

pub keys_distinct :
    (prefix bot : Text)
    → Distinct (state_key prefix bot) (active_key prefix bot) (queue_key prefix bot)
keys_distinct prefix bot =
    let sa = state_key-ne-active_key prefix bot bot in
    let sq = state_key-ne-queue_key prefix bot bot in
    let aq = active_key-ne-queue_key prefix bot bot in
    record {
      state_active = text_eq-ne _ _ sa;
      state_queue = text_eq-ne _ _ sq;
      active_state = text_eq-ne _ _ (λ e. sa (sym e));
      active_queue = text_eq-ne _ _ aq;
      queue_state = text_eq-ne _ _ (λ e. sq (sym e));
      queue_active = text_eq-ne _ _ (λ e. aq (sym e));
    }

-- The keys of two bots are all different: no key of one is a key of the other.
pub keys_disjoint :
    (prefix bot bot' : Text)
    → bot ≢ bot'
    → (state_key prefix bot ≢ state_key prefix bot')
      × (active_key prefix bot ≢ active_key prefix bot')
      × (queue_key prefix bot ≢ queue_key prefix bot')
      × (state_key prefix bot ≢ active_key prefix bot')
      × (state_key prefix bot ≢ queue_key prefix bot')
      × (active_key prefix bot ≢ queue_key prefix bot')
unfolding state_key active_key queue_key
keys_disjoint prefix bot bot' other = (
  λ e. other (key_injective prefix bot bot' (codes ":state") e),
  λ e. other (key_injective prefix bot bot' (codes ":active") e),
  λ e. other (key_injective prefix bot bot' (codes ":queue") e),
  state_key-ne-active_key prefix bot bot',
  state_key-ne-queue_key prefix bot bot',
  active_key-ne-queue_key prefix bot bot',
)

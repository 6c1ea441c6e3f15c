-- ===== src/App/Commands/Numbers.antt =====
-- A number means the same bot to every command.
use webot_msg.Common.{
  ℕ, zero, suc, ◌+◌, ◌-◌, ◌≤◌, ◌≡◌, refl, ap, ◌∙◌, true, false, Option, none, some, List, [], ◌∷◌,
  Text, length, get_elem?, Bool-cases, inl, inr, arith,
}
use webot_msg.Common.Int.{ℤ, pos, negsuc, eqb_ℤ, ltb_ℤ}
use webot_msg.Config.Store.{Store, valid_bot_ids, deleted, delete_bot_by_index}
use webot_msg.App.Commands.{numbered, list_bots, entry_at, select_bot}

-- The entry numbered `start + k` is the one at place `k`.
entry_at-numbered :
    (start k : ℕ) (ids : List Text)
    → entry_at (pos (start + k)) (numbered start ids) ≡ get_elem? ids k
unfolding entry_at numbered
entry_at-numbered start k [] = refl
entry_at-numbered start zero (id ∷ ids) = ground arith
entry_at-numbered start (suc k) (id ∷ ids) =
    let rest = entry_at-numbered (suc start) k ids in
    let next : start + suc k ≡ suc start + k = omega arith in
    let other : eqb_ℤ (pos start) (pos (start + suc k)) ≡ false = ground arith in
    simp other (ap (λ m. entry_at (pos m) (numbered (suc start) ids)) next ∙ rest)

deleted-id : (o : Option Text) (s : Store) → (deleted o s).0.0 ≡ o
unfolding deleted
deleted-id none s = refl
deleted-id (some id) s = refl

get_elem?-out : (ids : List Text) (k : ℕ) → length ids ≤ k → get_elem? ids k ≡ none
get_elem?-out [] k h = refl
get_elem?-out (id ∷ ids) zero h = absurd (omega (arith, h))
get_elem?-out (id ∷ ids) (suc k) h = get_elem?-out ids k (omega (arith, h))

below_first :
    (start : ℕ) (idx : ℤ) (ids : List Text)
    → ltb_ℤ idx (pos start) ≡ true
    → entry_at idx (numbered start ids) ≡ none
unfolding entry_at numbered
below_first start idx [] h = refl
below_first start idx (id ∷ ids) h =
    let rest = below_first (suc start) idx ids (ground arith) in ground arith

-- Whatever the number, selecting a bot by it finds the bot that deleting by it would remove, or none
-- where that would remove none.
pub select_bot-delete_bot_by_index :
    (idx : ℤ) (s : Store) → select_bot idx s ≡ (delete_bot_by_index idx s).0.0
unfolding select_bot list_bots delete_bot_by_index
select_bot-delete_bot_by_index (negsuc n) s =
    let ids = valid_bot_ids s in
    let low : ltb_ℤ (negsuc n) (pos 1) ≡ true = ground arith in
    let nothing = below_first 1 (negsuc n) ids low in simp low nothing
select_bot-delete_bot_by_index (pos zero) s =
    let ids = valid_bot_ids s in
    let low : ltb_ℤ (pos zero) (pos 1) ≡ true = ground arith in below_first 1 (pos zero) ids low
select_bot-delete_bot_by_index (pos (suc k)) s =
    let ids = valid_bot_ids s in
    let at : entry_at (pos (suc k)) (numbered 1 ids) ≡ get_elem? ids k =
      let sum : suc k ≡ 1 + k = omega arith in
      ap (λ m. entry_at (pos m) (numbered 1 ids)) sum ∙ entry_at-numbered 1 k ids in
    let above : ltb_ℤ (pos (suc k)) (pos 1) ≡ false = ground arith in
    let place : suc k - 1 ≡ k = omega arith in
    elim (Bool-cases (ltb_ℤ (pos (length ids)) (pos (suc k)))) [
      | inl out ↦
          let missing = get_elem?-out ids k (ground arith) in simp (above, out) (at ∙ missing)
      | inr within ↦
          let chosen = deleted-id (get_elem? ids k) s in simp (above, within, place, chosen) at
    ]

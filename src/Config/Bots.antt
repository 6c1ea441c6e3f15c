-- ===== src/Config/Bots.antt =====
-- The bots of the store after it was changed.
use webot_msg.Common.{
  ℕ, zero, suc, ◌<◌, ◌-◌, ◌≡◌, ◌≢◌, refl, ◌∙◌, sym, ap, true, false, ◌||◌, Option, none, some, List,
  [], ◌∷◌, inl, inr, arith, if◌then◌else◌, Text, text_eq, text_eq_refl, text_eq_sound, Bool-cases,
  length, get_elem?, Bool,
}
use webot_msg.Common.Int.{pos, ltb_ℤ}
use webot_msg.Config.{UserConfig}
use webot_msg.Config.Store.{
  Bots, Store, Write, written, write_failed, chmod_failed, lookup, insert, delete, found, get_bot,
  add_bot, update_bot, updated, save_locked, saved_by, delete_bot_by_index, deleted, valid_bot_ids,
}

true_is_not_false : true ≢ false
true_is_not_false h = cc

saved-bots : (ws : List Write) (s : Store) → (saved_by ws s).1.bots ≡ s.bots
saved-bots [] s = refl
saved-bots (written ∷ ws) s = refl
saved-bots (write_failed e ∷ ws) s = refl
saved-bots (chmod_failed e ∷ ws) s = refl

pub save_locked-bots : (s : Store) → (save_locked s).1.bots ≡ s.bots
unfolding save_locked
save_locked-bots s = saved-bots s.writes s

-- A text is not equal to two texts that differ.
one_text :
    (k id other : Text) → text_eq k id ≡ false → text_eq k other ≡ true → text_eq id other ≡ false
one_text k id other e q = elim (Bool-cases (text_eq id other)) [
  | inl h ↦
      let same = ap (λ t. text_eq k t) (text_eq_sound id other h) in
      absurd (true_is_not_false (sym q ∙ (sym same ∙ e)))
  | inr h ↦ h
]

lookup-insert :
    (id other : Text) (user : Option UserConfig) (bots : Bots)
    → lookup other (insert id user bots)
      ≡ (if text_eq id other then some user else lookup other bots)
unfolding lookup insert
lookup-insert id other user [] = refl
lookup-insert id other user ((k, old) ∷ bots) =
    let rest = lookup-insert id other user bots in
    elim (Bool-cases (text_eq k id)) [
      | inl e ↦
          let same = ap (λ t. text_eq t other) (text_eq_sound k id e) in
          simp (e, same) (ground arith)
      | inr e ↦ elim (Bool-cases (text_eq k other)) [
        | inl q ↦ simp (e, q, one_text k id other e q) refl
        | inr q ↦ simp (e, q) rest
      ]
    ]

-- Logging a bot in stores it in memory, in place of an entry of the same id, and changes no other
-- bot, even if the file cannot be written.
pub get_bot-add_bot :
    (user : UserConfig) (id : Text) (s : Store)
    → get_bot id (add_bot user s).1 ≡ (if text_eq user.bot_id id then some user else get_bot id s)
unfolding get_bot add_bot
get_bot-add_bot user id s =
    rw
      (
        save_locked-bots (record s { bots = insert user.bot_id (some user) s.bots }),
        lookup-insert user.bot_id id (some user) s.bots,
      )
      (elim (Bool-cases (text_eq user.bot_id id)) [ inl e ↦ simp e refl | inr e ↦ simp e refl ])

-- The ids of a map are different.
abbrev pub Unique : Bots → Type 0
Unique [] = Unit {0}
Unique ((k, user) ∷ bots) = (lookup k bots ≡ none) × Unique bots

lookup-delete :
    (id other : Text) (bots : Bots)
    → Unique bots
    → lookup other (delete id bots) ≡ (if text_eq id other then none else lookup other bots)
unfolding lookup delete
lookup-delete id other [] u = ground arith
lookup-delete id other ((k, user) ∷ bots) (fresh, u) =
    let rest = lookup-delete id other bots u in
    elim (Bool-cases (text_eq k id)) [
      | inl e ↦
          let same = ap (λ t. text_eq t other) (text_eq_sound k id e) in
          elim (Bool-cases (text_eq id other)) [
            | inl q ↦
                let gone =
                  ap (λ t. lookup t bots) (text_eq_sound k id e ∙ text_eq_sound id other q) in
                simp (e, q, same) (sym gone ∙ fresh)
            | inr q ↦ simp (e, q, same) refl
          ]
      | inr e ↦ elim (Bool-cases (text_eq k other)) [
        | inl q ↦ simp (e, q, one_text k id other e q) refl
        | inr q ↦ simp (e, q) rest
      ]
    ]

found_unless :
    (id other : Text) (bots : Bots)
    → found (if text_eq id other then none else lookup other bots)
      ≡ (if text_eq id other then none else found (lookup other bots))
found_unless id other bots = ground arith

get_elem_some : (ids : List Text) (n : ℕ) (id : Text) → get_elem? ids n ≡ some id → n < length ids
get_elem_some [] n id h = absurd (cc)
get_elem_some (k ∷ ids) zero id h = omega arith
get_elem_some (k ∷ ids) (suc n) id h = let rest = get_elem_some ids n id h in omega (arith, rest)

out_of_range :
    (n m : ℕ) → n < m → (ltb_ℤ (pos (suc n)) (pos 1) || ltb_ℤ (pos m) (pos (suc n))) ≡ false
out_of_range n m h = ground arith

-- The numbers of the list are the numbers that deletion takes, where the ids of the map are
-- different: deleting the number of a bot reports
-- its id, and takes that bot and no other out of memory, even if the file cannot be written.
pub delete_bot_by_index_lem :
    (n : ℕ) (id other : Text) (s : Store)
    → Unique s.bots
    → get_elem? (valid_bot_ids s) n ≡ some id
    → ((delete_bot_by_index (pos (suc n)) s).0.0 ≡ some id)
      × (get_bot other (delete_bot_by_index (pos (suc n)) s).1
          ≡ (if text_eq id other then none else get_bot other s))
unfolding delete_bot_by_index deleted get_bot
delete_bot_by_index_lem n id other s u at =
    let inside = get_elem_some (valid_bot_ids s) n id at in
    let t = record s { bots = delete id s.bots } in
    let number : suc n - 1 ≡ n = omega arith in
    let picked = ap (get_elem? (valid_bot_ids s)) number ∙ at in
    simp (out_of_range n _ inside, picked)
      (
        refl,
        rw (save_locked-bots t, lookup-delete id other s.bots u) (found_unless id other s.bots),
      )

-- An update that finds its bot leaves it as the update makes it, saved or not.
pub get_bot-update_bot :
    (id : Text) (update : UserConfig → Bool × UserConfig) (user : UserConfig) (s : Store)
    → get_bot id s ≡ some user
    → get_bot id (update_bot id update s).1 ≡ some (update user).1
unfolding get_bot update_bot updated
get_bot-update_bot id update user s h =
    let there = text_eq_refl id in
    let put = record s { bots = insert id (some (update user).1) s.bots } in
    let kept = save_locked-bots put in
    let stored = lookup-insert id id (some (update user).1) s.bots in
    elim (Bool-cases (update user).0) [
      | inl e ↦ simp (h, e, kept, stored, there)
      | inr e ↦ simp (h, e, stored, there)
    ]

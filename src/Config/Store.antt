-- ===== src/Config/Store.antt =====
-- internal/config/store.go: the bots that the program serves, in memory and in a file. The map is a
-- list of entries with different keys, in the order in which Go happens to walk it; an entry may be
-- a null pointer, since the file may hold one. Every method runs under the mutex.
use webot_msg.Common.{
  ℕ, ◌-◌, ltb, ◌==◌, Bool, true, false, ◌||◌, Option, none, some, List, [], ◌∷◌, if◌then◌else◌,
  Text, text_eq, is_empty, Error, Result, ok, err, length, get_elem?,
}
use webot_msg.Common.Int.{ℤ, pos, ltb_ℤ, pos_part}
use webot_msg.Config.{UserConfig}

abbrev pub Bots : Type 0
Bots = List (Text × Option UserConfig)

unfoldable pub lookup : Text → Bots → Option (Option UserConfig)
lookup id [] = none
lookup id ((k, user) ∷ bots) = let rest = lookup id bots in if text_eq k id then some user else rest

unfoldable pub insert : Text → Option UserConfig → Bots → Bots
insert id user [] = (id, user) ∷ []
insert id user ((k, old) ∷ bots) =
    let rest = insert id user bots in if text_eq k id then (k, user) ∷ bots else (k, old) ∷ rest

unfoldable pub delete : Text → Bots → Bots
delete id [] = []
delete id ((k, user) ∷ bots) =
    let rest = delete id bots in if text_eq k id then bots else (k, user) ∷ rest

-- What becomes of a write of the file: it is done, or it fails before or after the content is there.
pub data Write : Type 0 where
  written : Write
  write_failed chmod_failed : Error → Write

-- The bots in memory, those in the file (if its content is known), and the fate of the writes to
-- come (done, once the list ends).
pub record Store : Type 0 where
  pub bots : Bots
  pub file : Option Bots
  pub writes : List Write

abbrev pub saved_by : List Write → Store → Option Error × Store
saved_by [] s = (none, record s { file = some s.bots })
saved_by (written ∷ more) s = (none, record s { file = some s.bots; writes = more })
saved_by (write_failed e ∷ more) s = (some e, record s { file = none; writes = more })
saved_by (chmod_failed e ∷ more) s = (some e, record s { file = some s.bots; writes = more })

-- `saveLocked`
unfoldable pub save_locked : Store → Option Error × Store
save_locked s = saved_by s.writes s

-- The order of `sort.Strings`, on code points.
abbrev pub text_before : Text → Text → Bool
text_before [] [] = false
text_before [] (d ∷ t) = true
text_before (c ∷ s) [] = false
text_before (c ∷ s) (d ∷ t) = let rest = text_before s t in if c == d then rest else ltb c d

abbrev pub put_sorted : Text → List Text → List Text
put_sorted id [] = id ∷ []
put_sorted id (k ∷ ids) =
    let rest = put_sorted id ids in if text_before k id then k ∷ rest else id ∷ (k ∷ ids)

abbrev pub sort_texts : List Text → List Text
sort_texts [] = []
sort_texts (id ∷ ids) = put_sorted id (sort_texts ids)

abbrev pub is_nil : Option UserConfig → Bool
is_nil none = true
is_nil (some user) = false

unfoldable pub valid_keys : Bots → List Text
valid_keys [] = []
valid_keys ((k, user) ∷ bots) =
    let rest = valid_keys bots in if is_empty k || is_nil user then rest else k ∷ rest

-- `validBotIDsLocked`
unfoldable pub valid_bot_ids : Store → List Text
valid_bot_ids s = sort_texts (valid_keys s.bots)

unfoldable pub count : Store → ℕ
count s = length (valid_bot_ids s)

abbrev only : List Text → Option Text
only (id ∷ []) = some id
only _ = none

unfoldable pub single_bot_id : Store → Option Text
single_bot_id s = only (valid_bot_ids s)

abbrev pub found : Option (Option UserConfig) → Option UserConfig
found (some (some user)) = some user
found _ = none

unfoldable pub get_bot : Text → Store → Option UserConfig
get_bot id s = found (lookup id s.bots)

unfoldable pub add_bot : UserConfig → Store → Option Error × Store
add_bot user s = save_locked (record s { bots = insert user.bot_id (some user) s.bots })

unfoldable pub deleted : Option Text → Store → (Option Text × Option Error) × Store
deleted none s = ((none, none), s)
deleted (some id) s =
    let (e, s') = save_locked (record s { bots = delete id s.bots }) in ((some id, e), s')

-- Bots are numbered from 1 in the order of their ids.
unfoldable pub delete_bot_by_index : ℤ → Store → (Option Text × Option Error) × Store
unfolding deleted
delete_bot_by_index idx s =
    let ids = valid_bot_ids s in
    if ltb_ℤ idx (pos 1) || ltb_ℤ (pos (length ids)) idx
    then ((none, none), s)
    else deleted (get_elem? ids (pos_part idx - 1)) s

unfoldable pub updated :
    Text
    → (UserConfig → Bool × UserConfig)
    → Option UserConfig
    → Store
    → (Bool × Option Error) × Store
updated id update none s = ((false, none), s)
updated id update (some user) s =
    let (changed, user') = update user in
    let s' = record s { bots = insert id (some user') s.bots } in
    let (e, s'') = save_locked s' in if changed then ((true, e), s'') else ((false, none), s')

-- The update works on the stored bot, and says whether to save.
unfoldable pub update_bot :
    Text → (UserConfig → Bool × UserConfig) → Store → (Bool × Option Error) × Store
unfolding updated
update_bot id update s = updated id update (get_bot id s) s

module _ {W : Type 0} (generator : W → Result Text × W) where
  abbrev pub walked :
      UserConfig → Text → (Bool × Option Error) × (Bots × W) → (Bool × Option Error) × (Bots × W)
  walked user k ((changed, e), (bots, w)) = ((changed, e), ((k, some user) ∷ bots, w))

  abbrev pub tokened : (Bool × Option Error) × (Bots × W) → (Bool × Option Error) × (Bots × W)
  tokened ((changed, none), rest) = ((true, none), rest)
  tokened ((changed, some e), rest) = ((false, some e), rest)

  unfoldable pub token_given :
      UserConfig
      → Text
      → Bots
      → W
      → (Bool × Option Error) × (Bots × W)
      → Result Text
      → (Bool × Option Error) × (Bots × W)
  token_given user k bots w next (ok t) = tokened (walked (record user { api_token = t }) k next)
  token_given user k bots w next (err e) = ((false, some e), ((k, some user) ∷ bots, w))

  -- The walk over the bots: whether a token was given, or the error that ended it.
  unfoldable pub give_tokens : Bots → W → (Bool × Option Error) × (Bots × W)
  unfolding token_given
  give_tokens [] w = ((false, none), ([], w))
  give_tokens ((k, none) ∷ bots) w =
      let (found, (bots', w')) = give_tokens bots w in (found, ((k, none) ∷ bots', w'))
  give_tokens ((k, some user) ∷ bots) w =
      let (token, asked) = generator w in
      let w' = if is_empty user.api_token then asked else w in
      let next = give_tokens bots w' in
      if is_empty user.api_token then token_given user k bots w' next token else walked user k next

  unfoldable pub saved_tokens :
      (Bool × Option Error) × (Bots × W) → Store → (Bool × Option Error) × (Store × W)
  saved_tokens ((changed, some e), (bots, w)) s = ((false, some e), (record s { bots = bots }, w))
  saved_tokens ((false, none), (bots, w)) s = ((false, none), (record s { bots = bots }, w))
  saved_tokens ((true, none), (bots, w)) s =
      let (e, s') = save_locked (record s { bots = bots }) in ((true, e), (s', w))

  unfoldable pub ensure_api_tokens : Store → W → (Bool × Option Error) × (Store × W)
  unfolding saved_tokens
  ensure_api_tokens s w = saved_tokens (give_tokens s.bots w) s

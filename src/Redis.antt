-- ===== src/Redis.antt =====
-- The part of Redis that the program uses. Redis is not part of this repository: a database is a
-- parameter, with the commands that the scripts and the Go client issue, and their documented
-- effects as laws. A database is one in which every key holds what the program's own commands
-- put there, so that no command meets a value of another type.
pub mod Memory
use webot_msg.Common.{
  ℕ, ◌^◌, ◌≤◌, ◌≡◌, ◌≢◌, Bool, ◌&&◌, Option, none, some, List, [], ◌∷◌, ◌++◌, length, tail, head?,
  if◌then◌else◌, Text, codes, text_eq,
}
use webot_msg.Common.Int.{ℤ, pos, ◌+ℤ◌, leb_ℤ}

-- What a missing field or key stands for.
abbrev pub or_else : Option Text → Text → Text
or_else none d = d
or_else (some v) d = v

-- Numbers up to this one are exact as Lua's doubles.
abbrev pub max_exact : ℕ
max_exact = 2 ^ 53

pub record Redis : Type 1 where
  pub Db : Type 0
  -- HGET, HSET of one field, HINCRBY; `none` is the error on a field that is no integer.
  pub hget : Text → Text → Db → Option Text
  pub hset : Text → Text → Text → Db → Db
  pub hincrby : Text → Text → ℤ → Db → Option (ℤ × Db)
  -- PTTL: -2 for a missing key, -1 for a key with no expiry. GET; SET with PX, with `none` for the
  -- error on an expiry that is not positive.
  pub pttl : Text → Db → ℤ
  pub get : Text → Db → Option Text
  pub set_px : Text → Text → ℤ → Db → Option Db
  -- LRANGE of the whole list, LLEN, LINDEX 0, RPUSH, LPOP, PEXPIRE.
  pub lrange : Text → Db → List Text
  pub llen : Text → Db → ℕ
  pub lfirst : Text → Db → Option Text
  pub rpush : Text → Text → Db → Db
  pub lpop : Text → Db → Db
  pub pexpire : Text → ℤ → Db → Db
  -- How Lua prints an integer, and its `tonumber`.
  pub show : ℤ → Text
  pub tonumber : Text → Option ℤ
  pub show-zero : show (pos 0) ≡ codes "0"
  pub tonumber-show : (n : ℕ) → n ≤ max_exact → tonumber (show (pos n)) ≡ some (pos n)
  pub hget-hset :
      (k f v k' f' : Text) (db : Db)
      → hget k' f' (hset k f v db)
        ≡ (if text_eq k k' && text_eq f f' then some v else hget k' f' db)
  pub pttl-hset :
      (k f v k' : Text) (db : Db) → text_eq k k' ≡ Bool.false → pttl k' (hset k f v db) ≡ pttl k' db
  pub lrange-hset :
      (k f v k' : Text) (db : Db)
      → text_eq k k' ≡ Bool.false
      → lrange k' (hset k f v db) ≡ lrange k' db
  pub hincrby-hset :
      (k f : Text) (i : ℤ) (n m : ℕ) (db : Db)
      → or_else (hget k f db) (show (pos 0)) ≡ show (pos n)
      → pos n +ℤ i ≡ pos m
      → n ≤ max_exact
      → m ≤ max_exact
      → hincrby k f i db ≡ some (pos m, hset k f (show (pos m)) db)
  pub set_px_refused :
      (k v : Text) (ms : ℤ) (db : Db) → leb_ℤ ms (pos 0) ≡ Bool.true → set_px k v ms db ≡ none
  pub set_px_done :
      (k v : Text) (ms : ℤ) (db : Db)
      → leb_ℤ ms (pos 0) ≡ Bool.false
      → (db' : Db) × (set_px k v ms db ≡ some db')
        × (pttl k db' ≡ ms)
        × (get k db' ≡ some v)
        × ((k' f : Text) → text_eq k k' ≡ Bool.false → hget k' f db' ≡ hget k' f db)
        × ((k' : Text) → text_eq k k' ≡ Bool.false → lrange k' db' ≡ lrange k' db)
        × ((k' : Text) → text_eq k k' ≡ Bool.false → get k' db' ≡ get k' db)
        × ((k' : Text) → text_eq k k' ≡ Bool.false → pttl k' db' ≡ pttl k' db)
  pub llen-lrange : (k : Text) (db : Db) → llen k db ≡ length (lrange k db)
  pub lfirst-lrange : (k : Text) (db : Db) → lfirst k db ≡ head? (lrange k db)
  pub lrange-rpush : (k v : Text) (db : Db) → lrange k (rpush k v db) ≡ lrange k db ++ v ∷ []
  pub hget-rpush :
      (k v k' f : Text) (db : Db)
      → text_eq k k' ≡ Bool.false
      → hget k' f (rpush k v db) ≡ hget k' f db
  pub pttl-rpush :
      (k v k' : Text) (db : Db) → text_eq k k' ≡ Bool.false → pttl k' (rpush k v db) ≡ pttl k' db
  pub lrange-lpop : (k : Text) (db : Db) → lrange k (lpop k db) ≡ tail (lrange k db)
  pub hget-lpop :
      (k k' f : Text) (db : Db) → text_eq k k' ≡ Bool.false → hget k' f (lpop k db) ≡ hget k' f db
  pub pttl-lpop :
      (k k' : Text) (db : Db) → text_eq k k' ≡ Bool.false → pttl k' (lpop k db) ≡ pttl k' db
  -- An expiry that is not positive deletes the key.
  pub lrange-pexpire :
      (k : Text) (ms : ℤ) (db : Db)
      → lrange k (pexpire k ms db) ≡ (if leb_ℤ ms (pos 0) then [] else lrange k db)
  pub hget-pexpire :
      (k : Text) (ms : ℤ) (k' f : Text) (db : Db)
      → text_eq k k' ≡ Bool.false
      → hget k' f (pexpire k ms db) ≡ hget k' f db
  pub pttl-pexpire :
      (k : Text) (ms : ℤ) (k' : Text) (db : Db)
      → text_eq k k' ≡ Bool.false
      → pttl k' (pexpire k ms db) ≡ pttl k' db

-- An element of a script's reply as go-redis hands it over: a bulk string or an integer.
pub data Item : Type 0 where
  bulk : Text → Item
  int : ℤ → Item

-- The reply of a script; `raised` is an error that aborts it where it stands.
pub data Response : Type 0 where
  array : List Item → Response
  status : Text → Response
  integer : ℤ → Response
  raised : Response

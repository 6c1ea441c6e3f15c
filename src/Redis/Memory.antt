-- ===== src/Redis/Memory.antt =====
-- A small database in memory that meets the laws of `Redis`: they can hold together.
use webot_msg.Common.{
  ℕ, ◌≤◌, ◌≡◌, refl, ◌&&◌, Option, none, some, List, [], ◌∷◌, ◌++◌, length, tail, head?, arith,
  if◌then◌else◌, Text, codes, text_eq, text_eq_refl, false, Bool-cases, inl, inr,
}
use webot_msg.Common.Int.{ℤ, pos, negsuc, ◌+ℤ◌, leb_ℤ}
use webot_msg.Strconv.{itoa, atoi}
use webot_msg.Strconv.RoundTrip.{atoi-itoa}
use webot_msg.Redis.{Redis, or_else, max_exact}

pub record Memory : Type 0 where
  pub hash : Text → Text → Option Text
  pub string : Text → Option Text
  pub expiry : Text → ℤ
  pub list : Text → List Text

abbrev pub update : {A : Type 0} → (Text → A) → Text → A → Text → A
update f k a k' = if text_eq k k' then a else f k'

abbrev pub empty : Memory
empty = record { hash = λ k f. none; string = λ k. none; expiry = λ k. negsuc 1; list = λ k. [] }

abbrev put_field : Text → Text → Text → Memory → Memory
put_field k f v m = record m {
  hash = λ k' f'. if text_eq k k' && text_eq f f' then some v else m.hash k' f';
}

abbrev increment : Text → Text → ℤ → Memory → Option ℤ → Option (ℤ × Memory)
increment k f i m none = none
increment k f i m (some n) = some (n +ℤ i, put_field k f (itoa (n +ℤ i)) m)

abbrev write : Text → Text → ℤ → Memory → Memory
write k v ms m = record m { string = update m.string k (some v); expiry = update m.expiry k ms }

abbrev expire : Text → ℤ → Memory → Memory
expire k ms m =
    if leb_ℤ ms (pos 0)
    then record m { list = update m.list k []; expiry = update m.expiry k (negsuc 1) }
    else record m { expiry = update m.expiry k ms }

pub tonumber_of_show : (n : ℕ) → n ≤ max_exact → atoi (itoa (pos n)) ≡ some (pos n)
tonumber_of_show n h = atoi-itoa (pos n) (omega arith)

pub increment_lem :
    (k f : Text) (i : ℤ) (n m : ℕ) (db : Memory)
    → or_else (db.hash k f) (itoa (pos 0)) ≡ itoa (pos n)
    → pos n +ℤ i ≡ pos m
    → n ≤ max_exact
    → m ≤ max_exact
    → increment k f i db (atoi (or_else (db.hash k f) (itoa (pos 0))))
      ≡ some (pos m, put_field k f (itoa (pos m)) db)
increment_lem k f i n m db e h small b = rw (e, tonumber_of_show n small, h)

pub update_same : {A : Type 0} (f : Text → A) (k : Text) (a : A) → update f k a k ≡ a
update_same f k a = rw (text_eq_refl k)

update_other :
    {A : Type 0} (f : Text → A) (k k' : Text) (a : A)
    → text_eq k k' ≡ false
    → update f k a k' ≡ f k'
update_other f k k' a h = rw h

pub write_lem :
    (k v : Text) (ms : ℤ) (db : Memory)
    → let db' = write k v ms db in
      (db'.expiry k ≡ ms)
      × (db'.string k ≡ some v)
      × ((k' : Text) → text_eq k k' ≡ false → db'.string k' ≡ db.string k')
      × ((k' : Text) → text_eq k k' ≡ false → db'.expiry k' ≡ db.expiry k')
write_lem k v ms db = (
  update_same db.expiry k ms,
  update_same db.string k (some v),
  λ k'. update_other db.string k k' (some v),
  λ k'. update_other db.expiry k k' ms,
)

pub show_zero : itoa (pos 0) ≡ codes "0"
unfolding itoa
show_zero = refl

pub lrange-expire :
    (k : Text) (ms : ℤ) (db : Memory)
    → (expire k ms db).list k ≡ (if leb_ℤ ms (pos 0) then [] else db.list k)
lrange-expire k ms db = elim (Bool-cases (leb_ℤ ms (pos 0))) [
  | inl h ↦ rw (h, text_eq_refl k)
  | inr h ↦ rw h
]

pub hash-expire :
    (k : Text) (ms : ℤ) (k' f : Text) (db : Memory)
    → text_eq k k' ≡ false
    → (expire k ms db).hash k' f ≡ db.hash k' f
hash-expire k ms k' f db e = elim (Bool-cases (leb_ℤ ms (pos 0))) [ inl h ↦ rw h | inr h ↦ rw h ]

pub expiry-expire :
    (k : Text) (ms : ℤ) (k' : Text) (db : Memory)
    → text_eq k k' ≡ false
    → (expire k ms db).expiry k' ≡ db.expiry k'
expiry-expire k ms k' db e = elim (Bool-cases (leb_ℤ ms (pos 0))) [
  | inl h ↦ rw (h, e)
  | inr h ↦ rw (h, e)
]

abbrev pub memory : Redis
memory = record {
  Db = Memory;
  hget = λ k f m. m.hash k f;
  hset = put_field;
  hincrby = λ k f i m. increment k f i m (atoi (or_else (m.hash k f) (itoa (pos 0))));
  pttl = λ k m. m.expiry k;
  get = λ k m. m.string k;
  set_px = λ k v ms m. if leb_ℤ ms (pos 0) then none else some (write k v ms m);
  lrange = λ k m. m.list k;
  llen = λ k m. length (m.list k);
  lfirst = λ k m. head? (m.list k);
  rpush = λ k v m. record m { list = update m.list k (m.list k ++ v ∷ []) };
  lpop = λ k m. record m { list = update m.list k (tail (m.list k)) };
  pexpire = expire;
  show = itoa;
  tonumber = atoi;
  show-zero = show_zero;
  tonumber-show = tonumber_of_show;
  hget-hset = λ k f v k' f' db. refl;
  pttl-hset = λ k f v k' db h. refl;
  lrange-hset = λ k f v k' db h. refl;
  hincrby-hset = increment_lem;
  set_px_refused = λ k v ms db h. rw h;
  set_px_done = λ k v ms db h.
      let w = write_lem k v ms db in
      (write k v ms db, rw h, w.0, w.1, λ k' f e. refl, λ k' e. refl, w.2, w.3);
  llen-lrange = λ k db. refl;
  lfirst-lrange = λ k db. refl;
  lrange-rpush = λ k v db. update_same db.list k (db.list k ++ v ∷ []);
  hget-rpush = λ k v k' f db h. refl;
  pttl-rpush = λ k v k' db h. refl;
  lrange-lpop = λ k db. update_same db.list k (tail (db.list k));
  hget-lpop = λ k k' f db h. refl;
  pttl-lpop = λ k k' db h. refl;
  lrange-pexpire = lrange-expire;
  hget-pexpire = hash-expire;
  pttl-pexpire = expiry-expire;
}

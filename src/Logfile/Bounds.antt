-- ===== src/Logfile/Bounds.antt =====
-- How large the log gets, whatever fails.
use webot_msg.Common.{
  ℕ, ◌+◌, ◌≤◌, ◌<◌, ◌^◌, ◌≡◌, refl, ap, sym, ◌∙◌, inl, inr, true, false, Option, none, some, List,
  [], ◌∷◌, length, length-append, take, length-take_le, Text, Error, ok, Bool-cases, Option-cases,
  arith,
}
use webot_msg.Common.Int.{ℤ, pos, pos_part, ◌+ℤ◌, int64, int64-fits, ltb_ℤ}
use webot_msg.Common.Faults.{first_fate}
use webot_msg.Logfile.{
  Disk, SizeWriter, text_of, rotate, write_file, count_bytes, after_rotate, write, new_size_writer,
}

abbrev pub log_length : Disk → ℕ
log_length d = length (text_of d.log)

-- The log keeps to the bound, and an open writer knows its length.
pub record Bounded (bound : ℕ) (w : SizeWriter) (d : Disk) : Type 0 where
  pub within : log_length d ≤ bound
  pub tracked : w.file ≡ true → w.size ≡ pos (log_length d)
  pub limit : pos_part w.max_bytes ≤ bound

-- An attempt to start the log anew that ended well left an empty one.
pub record Rotated (bound : ℕ) (out : Option Error × (SizeWriter × Disk)) : Type 0 where
  pub bounded : Bounded bound out.1.0 out.1.1
  pub anew : out.0 ≡ none → log_length out.1.1 ≡ 0

rotate-Rotated :
    (bound : ℕ) (w : SizeWriter) (d : Disk) → Bounded bound w d → Rotated bound (rotate w d)
unfolding rotate
rotate-Rotated bound w d b = record {
  bounded = record { within = ground arith; tracked = ground arith; limit = ground arith };
  anew = ground arith;
}

int64_sum : (m n : ℕ) → m + n < 2 ^ 63 → int64 (pos m +ℤ pos n) ≡ pos (m + n)
unfolding ◌+ℤ◌
int64_sum m n h =
    let sum : pos m +ℤ pos n ≡ pos (m + n) = ground arith in
    rw sum (int64-fits (pos (m + n)) (ground arith))

-- What is written is a part of the text, at the end of the log.
write_file_lem :
    (p : Text) (w : SizeWriter) (d : Disk)
    → w.file ≡ true
    → let out = write_file p w d in
      (log_length out.1 ≡ log_length d + out.0.0) × (out.0.0 ≤ length p)
unfolding write_file
write_file_lem p w d o = elim (Option-cases (first_fate d.fates)) [
  | inl works ↦
      let whole = length-append (text_of d.log) p in simp (o, works) (ground arith, ground arith)
  | inr (fault, fails) ↦
      let short = length-take_le p fault.bytes_written in
      let part = length-append (text_of d.log) (take p fault.bytes_written) in
      simp (o, fails) (ground arith, ground arith)
]

write_file-closed :
    (p : Text) (w : SizeWriter) (d : Disk) → w.file ≡ false → (write_file p w d).1 ≡ d
unfolding write_file
write_file-closed p w d o = ground arith

-- A write to a log that has room for it.
write_file-Bounded :
    (bound : ℕ) (p : Text) (w : SizeWriter) (d : Disk)
    → Bounded bound w d
    → (w.file ≡ true → log_length d + length p ≤ bound)
    → bound < 2 ^ 63
    → let out = count_bytes w (write_file p w d) in Bounded bound out.1.0 out.1.1
unfolding write_file count_bytes
write_file-Bounded bound p w d b room small =
    let out = write_file p w d in
    elim (Bool-cases w.file) [
      | inl o ↦
          let known = write_file_lem p w d o in
          let sum = int64_sum (log_length d) out.0.0 (ground arith) in
          let at = b.tracked o in
          record {
            within = ground arith;
            tracked = λ _. rw at (sum ∙ ap pos (sym known.0));
            limit = b.limit;
          }
      | inr o ↦
          let same = write_file-closed p w d o in
          record { within = rw same b.within; tracked = λ f. ground arith; limit = b.limit }
    ]

after_rotate-Bounded :
    (bound : ℕ) (p : Text) (out : Option Error × (SizeWriter × Disk))
    → Rotated bound out
    → length p ≤ bound
    → bound < 2 ^ 63
    → let next = after_rotate p out in Bounded bound next.1.0 next.1.1
unfolding after_rotate
after_rotate-Bounded bound p (some e, (w, d)) r q small = r.bounded
after_rotate-Bounded bound p (none, (w, d)) r q small =
    let empty = r.anew refl in write_file-Bounded bound p w d r.bounded (λ o. omega arith) small

write-Bounded :
    (bound : ℕ) (p : Text) (w : SizeWriter) (d : Disk)
    → Bounded bound w d
    → length p ≤ bound
    → bound + length p < 2 ^ 63
    → let out = write p w d in Bounded bound out.1.0 out.1.1
unfolding write
write-Bounded bound p w d b q small =
    elim (Bool-cases (ltb_ℤ w.max_bytes (int64 (w.size +ℤ pos (length p))))) [
      | inl over ↦
          let next =
            after_rotate-Bounded bound p (rotate w d) (rotate-Rotated bound w d b) q
              (omega arith) in
          simp (over) next
      | inr room ↦
          let next =
            write_file-Bounded bound p w d b
              (λ o.
                let at = b.tracked o in
                let sum = int64_sum (log_length d) (length p) (ground arith) in
                let total : int64 (w.size +ℤ pos (length p)) ≡ pos (log_length d + length p) =
                  rw at sum in
                ground arith)
              (omega arith) in
          simp (room) next
    ]

unfoldable pub write_all : List Text → SizeWriter → Disk → SizeWriter × Disk
write_all [] w d = (w, d)
write_all (p ∷ ps) w d = let (n, (w', d')) = write p w d in write_all ps w' d'

abbrev pub AllWithin : ℕ → List Text → Type 0
AllWithin bound [] = Unit {0}
AllWithin bound (p ∷ ps) = (length p ≤ bound) × AllWithin bound ps

-- From a log that keeps to a bound, and a writer that knows its length and whose maximum is within
-- the bound, any writes of texts within the bound leave the log within it, and an open writer that
-- knows its length, whatever calls of the operating system fail meanwhile, and wherever a write
-- breaks off. The bound leaves room for one more text below 2 ^ 63.
pub write_all-Bounded :
    (bound : ℕ) (ps : List Text) (w : SizeWriter) (d : Disk)
    → Bounded bound w d
    → AllWithin bound ps
    → bound + bound < 2 ^ 63
    → let out = write_all ps w d in Bounded bound out.0 out.1
unfolding write_all
write_all-Bounded bound [] w d b q small = b
write_all-Bounded bound (p ∷ ps) w d b (q, qs) small =
    let out = write p w d in
    write_all-Bounded bound ps out.1.0 out.1.1 (write-Bounded bound p w d b q (omega arith)) qs
      small

-- The writer that `NewSizeWriter` makes knows the length of its log and keeps to any bound above it.
pub new_size_writer-Bounded :
    (bound : ℕ) (max_bytes : ℤ) (d : Disk) {w : SizeWriter}
    → log_length d ≤ bound
    → pos_part max_bytes ≤ bound
    → (new_size_writer max_bytes d).0 ≡ ok w
    → Bounded bound w (new_size_writer max_bytes d).1
unfolding new_size_writer
new_size_writer-Bounded bound max_bytes d l m h = record {
  within = ground arith;
  tracked = ground arith;
  limit = ground arith;
}

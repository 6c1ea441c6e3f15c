-- ===== src/Logfile.antt =====
-- internal/logfile/writer.go: a log that starts anew once it is full. The disk has the log and its
-- backup; every call of the operating system works or fails as the list of fates says, and works
-- once the list ends.
pub mod Bounds
use webot_msg.Common.{
  ℕ, Bool, true, false, Option, none, some, List, [], ◌∷◌, ◌++◌, length, take, if◌then◌else◌, Text,
  is_empty, codes, Error, failed, Result, ok, err,
}
use webot_msg.Common.Faults.{Fault, first_fate, other_fates}
use webot_msg.Common.Int.{ℤ, pos, ◌+ℤ◌, int64, ltb_ℤ, leb_ℤ}

pub record Disk : Type 0 where
  pub log : Option Text
  pub backup : Option Text
  pub fates : List (Option Fault)

-- `file` says whether the file is open.
pub record SizeWriter : Type 0 where
  pub max_bytes : ℤ
  pub file : Bool
  pub size : ℤ

-- One call of the operating system, with what it does if it works.
abbrev pub call : (Disk → Disk) → Disk → Option Error × Disk
call effect d = elim (first_fate d.fates) [
  | none ↦ (none, effect (record d { fates = other_fates d.fates }))
  | some fault ↦ (some fault.error, record d { fates = other_fates d.fates })
]

abbrev pub text_of : Option Text → Text
text_of none = []
text_of (some text) = text

abbrev pub invalid : Error
invalid = failed (codes "invalid argument")

-- `os.OpenFile` of the log, to append to it or emptied.
abbrev open_append : Disk → Disk
open_append d = record d { log = some (text_of d.log) }

abbrev open_empty : Disk → Disk
open_empty d = record d { log = some [] }

abbrev stated : ℤ → Option Error × Disk → Result SizeWriter × Disk
stated max_bytes (some e, d) = (err e, (call (λ d. d) d).1)
stated max_bytes (none, d) =
    (ok (record { max_bytes = max_bytes; file = true; size = pos (length (text_of d.log)) }), d)

abbrev opened : ℤ → Option Error × Disk → Result SizeWriter × Disk
opened max_bytes (some e, d) = (err e, d)
opened max_bytes (none, d) = stated max_bytes (call (λ d. d) d)

abbrev made_dir : ℤ → Option Error × Disk → Result SizeWriter × Disk
made_dir max_bytes (some e, d) = (err e, d)
made_dir max_bytes (none, d) = opened max_bytes (call open_append d)

-- `NewSizeWriter` of a path that is not empty. A file whose size is not known is closed again.
unfoldable pub new_size_writer : ℤ → Disk → Result SizeWriter × Disk
new_size_writer max_bytes d =
    if leb_ℤ max_bytes (pos 0) then (err invalid, d) else made_dir max_bytes (call (λ d. d) d)

abbrev Step : Type 0
Step = Option Error × (SizeWriter × Disk)

abbrev reopened : SizeWriter → Option Error × Disk → Step
reopened w (some e, d) = (some e, (w, d))
reopened w (none, d) = (none, (record w { file = true; size = pos 0 }, d))

abbrev renamed : SizeWriter → Option Error × Disk → Step
renamed w (some e, d) = (some e, (w, d))
renamed w (none, d) = reopened w (call open_empty d)

-- The look at the log; there is nothing to rename if it is gone.
abbrev looked : SizeWriter → Option Error × Disk → Step
looked w (some e, d) = (some e, (w, d))
looked w (none, d) = elim d.log [
  | none ↦ reopened w (call open_empty d)
  | some text ↦ renamed w (call (λ d. record d { log = none; backup = some text }) d)
]

-- A backup that is not there need not be removed.
abbrev removed : SizeWriter → Option Error × Disk → Step
removed w (some e, d) = (some e, (w, d))
removed w (none, d) = looked w (call (λ d. d) d)

abbrev closed : SizeWriter → Option Error × Disk → Step
closed w (some e, d) = (some e, (w, d))
closed w (none, d) = removed (record w { file = false }) (call (λ d. record d { backup = none }) d)

unfoldable pub rotate : SizeWriter → Disk → Step
rotate w d = if w.file then closed w (call (λ d. d) d) else closed w (none, d)

abbrev append : Text → Disk → Disk
append p d = record d { log = some (text_of d.log ++ p); fates = other_fates d.fates }

abbrev wrote : Text → Option Fault → Disk → (ℕ × Option Error) × Disk
wrote p none d = ((length p, none), append p d)
wrote p (some fault) d =
    let part = take p fault.bytes_written in ((length part, some fault.error), append part d)

-- `(*os.File).Write`, which is invalid on a file that is closed.
unfoldable pub write_file : Text → SizeWriter → Disk → (ℕ × Option Error) × Disk
write_file p w d = if w.file then wrote p (first_fate d.fates) d else ((0, some invalid), d)

unfoldable pub count_bytes :
    SizeWriter → (ℕ × Option Error) × Disk → (ℕ × Option Error) × (SizeWriter × Disk)
count_bytes w ((n, e), d) = ((n, e), (record w { size = int64 (w.size +ℤ pos n) }, d))

unfoldable pub after_rotate : Text → Step → (ℕ × Option Error) × (SizeWriter × Disk)
after_rotate p (some e, (w, d)) = ((0, some e), (w, d))
after_rotate p (none, (w, d)) = count_bytes w (write_file p w d)

unfoldable pub write : Text → SizeWriter → Disk → (ℕ × Option Error) × (SizeWriter × Disk)
write p w d =
    if ltb_ℤ w.max_bytes (int64 (w.size +ℤ pos (length p)))
    then after_rotate p (rotate w d)
    else count_bytes w (write_file p w d)

unfoldable pub close : SizeWriter → Disk → Option Error × (SizeWriter × Disk)
close w d =
    let (e, d') = call (λ d. d) d in
    if w.file then (e, (record w { file = false }, d')) else (none, (w, d))

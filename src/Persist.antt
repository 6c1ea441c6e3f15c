-- ===== src/Persist.antt =====
-- internal/protection/state_store.go and internal/audit/state_store.go, which save and load one flag
-- in the same way: by a temporary file that is renamed. The disk has the file and the temporary one.
pub mod Atomic
use webot_msg.Common.{
  Bool, true, false, Option, none, some, List, [], ◌∷◌, ◌++◌, take, Text, codes, Error, wrapped,
  Result, ok, err, or_wrap, ◌≡◌,
}
use webot_msg.Common.Faults.{Fault, first_fate, other_fates}

pub record Disk : Type 0 where
  pub file : Option Text
  pub temp : Option Text
  pub fates : List (Option Fault)

-- How encoding/json stores the flag, which is not modelled: what it writes it reads back.
pub record StateCodec : Type 0 where
  pub marshal : Bool → Text
  pub unmarshal : Text → Result Bool
  pub unmarshal-marshal : (enabled : Bool) → unmarshal (marshal enabled) ≡ ok enabled

abbrev pub worked : Option Fault → (Disk → Disk) → Disk → Option Error × Disk
worked none effect d = (none, effect d)
worked (some fault) effect d = (some fault.error, d)

-- One call of the operating system, with what it does if it works.
abbrev pub call : (Disk → Disk) → Disk → Option Error × Disk
call effect d = worked (first_fate d.fates) effect (record d { fates = other_fates d.fates })

abbrev pub ask : Disk → Option Error × Disk
ask = call (λ d. d)

-- The next call, unless this one failed.
abbrev pub after : Option Error × Disk → (Disk → Option Error × Disk) → Option Error × Disk
after (some e, d) next = (some e, d)
after (none, d) next = next d

-- The temporary file is removed on every way out but the last; an error of that is dropped.
abbrev pub remove_temp : Option Error × Disk → Option Error × Disk
remove_temp (some e, d) = (some e, (call (λ d. record d { temp = none }) d).1)
remove_temp (none, d) = (none, d)

-- A file that could not be written or given its mode is closed.
abbrev pub close_failed : Option Error × Disk → Option Error × Disk
close_failed (some e, d) = (some e, (ask d).1)
close_failed (none, d) = (none, d)

abbrev pub written : Text → Option Fault → Disk → Option Error × Disk
written bytes none d = (none, record d { temp = some bytes })
written bytes (some fault) d =
    (some fault.error, record d { temp = some (take bytes fault.bytes_written) })

unfoldable pub write_temp : Text → Disk → Option Error × Disk
write_temp bytes d = written bytes (first_fate d.fates) (record d { fates = other_fates d.fates })

abbrev pub rename : Disk → Disk
rename d = record d { file = d.temp; temp = none }

unfoldable pub fill_temp : Text → Disk → Option Error × Disk
fill_temp bytes d =
    remove_temp
      (after (close_failed (after (write_temp bytes d) ask)) (λ d1. after (ask d1) (call rename)))

-- `Save`: the directory and its mode, the temporary file, and the mode of the file.
unfoldable pub save_state : Text → Disk → Option Error × Disk
save_state bytes d = after (ask d) (λ d1. after (ask d1) (λ d2.
    after (call (λ d. record d { temp = some [] }) d2) (λ d3. after (fill_temp bytes d3) ask)))

abbrev read : StateCodec → Text → Option Text → Result Bool
read codec label none = ok false
read codec label (some bytes) = or_wrap label (codec.unmarshal bytes)

abbrev pub read_file : Option Fault → Disk → (Option Text → Result Bool) → Result Bool × Disk
read_file none d next = (next d.file, d)
read_file (some fault) d next = (err fault.error, d)

-- `Load`: a file that is not there is a flag that is off.
unfoldable pub load_state : StateCodec → Text → Disk → Result Bool × Disk
load_state codec label d =
    read_file (first_fate d.fates) (record d { fates = other_fates d.fates }) (read codec label)

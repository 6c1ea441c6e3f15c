-- ===== src/Common/Faults.antt =====
-- Calls of the operating system that may fail, as a list of fates says; they work once it ends.
use Prim.Native.Nat.{ℕ}
use mathlib.Core.Option.{Option, none}
use mathlib.Core.List.{List, [], ◌∷◌}
use webot_msg.Common.Results.{Error}

-- A write that fails has written some bytes.
pub record Fault : Type 0 where
  pub error : Error
  pub bytes_written : ℕ

abbrev pub first_fate : List (Option Fault) → Option Fault
first_fate [] = none
first_fate (fate ∷ fates) = fate

abbrev pub other_fates : List (Option Fault) → List (Option Fault)
other_fates [] = []
other_fates (fate ∷ fates) = fates

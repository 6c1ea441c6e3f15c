-- ===== src/Persist/Atomic.antt =====
-- A save that fails leaves the file as it was or as it is to be.
use webot_msg.Common.{
  ◌≡◌, refl, Option-cases, ◌⊎◌, inl, inr, Bool, Option, none, some, [], Text, Error, ok, arith,
}
use webot_msg.Common.Faults.{first_fate}
use webot_msg.Persist.{
  Disk, StateCodec, call, ask, after, write_temp, fill_temp, save_state, load_state,
}

pub record Atomic (bytes : Text) (before : Disk) (out : Option Error × Disk) : Type 0 where
  pub old_or_new : (out.1.file ≡ before.file) ⊎ (out.1.file ≡ some bytes)
  pub saved : out.0 ≡ none → out.1.file ≡ some bytes
  pub no_temp_left : out.0 ≡ none → out.1.temp ≡ none

fill_temp-Atomic : (bytes : Text) (d : Disk) → Atomic bytes d (fill_temp bytes d)
unfolding fill_temp write_temp
fill_temp-Atomic bytes d = record {
  old_or_new = ground arith;
  saved = ground arith;
  no_temp_left = ground arith;
}

-- Before the file is touched.
kept-Atomic :
    (bytes : Text) (before : Disk) (o : Option Error × Disk) (next : Disk → Option Error × Disk)
    → o.1.file ≡ before.file
    → ((d : Disk) → Atomic bytes d (next d))
    → Atomic bytes before (after o next)
kept-Atomic bytes before (some e, d) next k n = record {
  old_or_new = inl k;
  saved = λ h. ground arith;
  no_temp_left = λ h. ground arith;
}
kept-Atomic bytes before (none, d) next k n =
    let a = n d in
    record { old_or_new = rw (← k) a.old_or_new; saved = a.saved; no_temp_left = a.no_temp_left }

call_keeps :
    (effect : Disk → Disk) (d : Disk)
    → ((d : Disk) → (effect d).file ≡ d.file)
    → (call effect d).1.file ≡ d.file
call_keeps effect d k = elim (Option-cases (first_fate d.fates)) [
  | inl works ↦ simp (works, k)
  | inr (fault, fails) ↦ simp fails
]

-- After the file is in place.
asked-Atomic :
    (bytes : Text) (before : Disk) (o : Option Error × Disk)
    → Atomic bytes before o
    → Atomic bytes before (after o ask)
asked-Atomic bytes before (some e, d) a = a
asked-Atomic bytes before (none, d) a = record {
  old_or_new = inr (ground arith);
  saved = ground arith;
  no_temp_left = ground arith;
}

-- Whatever calls of the operating system fail, and wherever a write breaks off, a save leaves the
-- file with its old content or with the whole new one; a save without an error leaves the new one,
-- and no temporary file.
pub save_state-Atomic : (bytes : Text) (d : Disk) → Atomic bytes d (save_state bytes d)
unfolding save_state
save_state-Atomic bytes d =
    let same : Disk → Disk = λ d. d in
    let begun : Disk → Disk = λ d. record d { temp = some [] } in
    kept-Atomic bytes d (ask d) _ (call_keeps same d (λ d. refl)) (λ d1.
      kept-Atomic bytes d1 (ask d1) _ (call_keeps same d1 (λ d. refl)) (λ d2.
        kept-Atomic bytes d2 (call begun d2) _ (call_keeps begun d2 (λ d. refl))
          (λ d3. asked-Atomic bytes d3 (fill_temp bytes d3) (fill_temp-Atomic bytes d3))))

-- A flag that was saved without an error is the flag that the next load reads, if the file can be read.
pub load_state-save_state :
    (codec : StateCodec) (label : Text) (enabled : Bool) (d : Disk)
    → (save_state (codec.marshal enabled) d).0 ≡ none
    → (save_state (codec.marshal enabled) d).1.fates ≡ []
    → (load_state codec label (save_state (codec.marshal enabled) d).1).0 ≡ ok enabled
unfolding load_state
load_state-save_state codec label enabled d h f =
    let stored = (save_state-Atomic (codec.marshal enabled) d).saved h in
    let back = codec.unmarshal-marshal enabled in simp (stored, f, back)

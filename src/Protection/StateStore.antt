-- ===== src/Protection/StateStore.antt =====
-- internal/protection/state_store.go: the flag of the protection in its file.
use webot_msg.Common.{Bool, Option, codes, Error, Result}
use webot_msg.Persist.{Disk, StateCodec, save_state, load_state}

unfoldable pub save : StateCodec → Bool → Disk → Option Error × Disk
save codec enabled d = save_state (codec.marshal enabled) d

unfoldable pub load : StateCodec → Disk → Result Bool × Disk
load codec d = load_state codec (codes "decode protection state") d

-- ===== src/App/Switches.antt =====
-- internal/app/app.go: switching the protection on and off, and restoring it at the start. The guard
-- is the runtime guard, if there is one; the table of the checkers holds the ids of their bots.
pub mod Restoring
use webot_msg.Common.{
  ℕ, Bool, true, false, Option, none, some, List, [], ◌∷◌, ◌++◌, if◌then◌else◌, Text, codes,
  text_eq, Error, failed, Result, ok, err,
}
use webot_msg.Config.Store.{Store, valid_bot_ids}
use webot_msg.Persist.{Disk, StateCodec}
use webot_msg.Protection.RuntimeGuard
use webot_msg.Protection.RuntimeGuard.{Dialer, EnableConfig, RuntimeGuard}
use webot_msg.Protection.Guard.{error_text}
use webot_msg.Protection.StateStore
use webot_msg.App.Drainers.{Drainers, start_send_queue_drainer, stop_send_queue_drainers}

-- What the switch uses of an `App`: `state_disk` is the disk of the state store, if there is one; `printed` are the lines that were
-- shown to the user.
pub record App : Type 0 where
  pub store : Store
  pub guard : Option RuntimeGuard
  pub protection_enabled : Bool
  pub checkers : Text → Bool
  pub drainers : Drainers
  pub state_disk : Option Disk
  pub printed : List Text

-- `outside` has the texts of errors from outside.
pub record Settings : Type 0 where
  pub dialer : Dialer
  pub protection_config : EnableConfig
  pub codec : StateCodec
  pub outside : ℕ → Text

abbrev pub guard_missing : Error
guard_missing = failed (codes "runtime protection guard is not available")

abbrev pub print : Text → App → App
print text a = record a { printed = a.printed ++ text ∷ [] }

abbrev pub enabled_by : Option RuntimeGuard → Bool → Bool
enabled_by none enabled = enabled
enabled_by (some g) enabled = g.enabled

unfoldable pub protection_is_enabled : App → Bool
protection_is_enabled a = enabled_by a.guard a.protection_enabled

-- The goroutine of a checker is left out.
unfoldable pub start_protection_checker : Text → App → App
start_protection_checker bot a =
    if protection_is_enabled a
    then record a { checkers = λ other. if text_eq bot other then true else a.checkers other }
    else a

unfoldable pub stop_protection_checkers : App → App
stop_protection_checkers a = record a { checkers = λ bot. false }

unfoldable pub start_drainer : Text → App → App
start_drainer bot a = record a {
  drainers = start_send_queue_drainer (protection_is_enabled a) bot a.drainers;
}

unfoldable pub start_all : List Text → App → App
start_all [] a = a
start_all (bot ∷ bots) a = start_all bots (start_drainer bot (start_protection_checker bot a))

unfoldable pub start_drainers : List Text → App → App
start_drainers [] a = a
start_drainers (bot ∷ bots) a = start_drainers bots (start_drainer bot a)

abbrev pub warn_unsaved : Settings → Option Error → App → App
warn_unsaved set none a = a
warn_unsaved set (some e) a =
    print (codes "Warning: persist protection state failed: " ++ error_text set.outside e) a

abbrev pub persist_on : Settings → Bool → Option Disk → App → App
persist_on set enabled none a = a
persist_on set enabled (some d) a =
    let (e, d') = StateStore.save set.codec enabled d in
    warn_unsaved set e (record a { state_disk = some d' })

unfoldable pub persist_protection_state : Settings → Bool → App → App
persist_protection_state set enabled a = persist_on set enabled a.state_disk a

abbrev pub enabled_text : Settings → Text
enabled_text set =
    codes "Protection enabled. Redis key prefix: " ++ set.protection_config.key_prefix

abbrev pub switched_on : Settings → App → App
switched_on set a = persist_protection_state set true (
    print (enabled_text set)
      (start_all (valid_bot_ids a.store) (record a { protection_enabled = true })))

abbrev pub after_enable : Settings → App → Option Error × RuntimeGuard → Option Error × App
after_enable set a (some e, g) = (some e, record a { guard = some g })
after_enable set a (none, g) = (none, switched_on set (record a { guard = some g }))

abbrev pub enable_on : Settings → Option RuntimeGuard → App → Option Error × App
enable_on set none a = (some guard_missing, a)
enable_on set (some g) a =
    after_enable set a (RuntimeGuard.enable set.dialer set.protection_config g)

unfoldable pub enable_protection : Settings → App → Option Error × App
enable_protection set a = enable_on set a.guard a

abbrev pub disable_on : Settings → Option RuntimeGuard → App → Option Error × App
disable_on set none a = (some guard_missing, a)
disable_on set (some g) a =
    let stopped = stop_protection_checkers a in
    let off = record stopped {
      guard = some (RuntimeGuard.disable g);
      protection_enabled = false;
      drainers = stop_send_queue_drainers a.drainers;
    } in
    (none, persist_protection_state set false (print (codes "Protection disabled.") off))

unfoldable pub disable_protection : Settings → App → Option Error × App
disable_protection set a = disable_on set a.guard a

-- The warning of a restore that failed is printed if there is a terminal to print it on.
abbrev pub warn_restore : Bool → Text → App → App
warn_restore terminal text a = if terminal then print (codes "Warning: " ++ text) a else a

abbrev pub after_restore : Settings → Bool → App → Option Error × RuntimeGuard → App
after_restore set terminal a (some e, g) =
    warn_restore terminal
      (codes
          "protection auto-restore failed; protection remains disabled. Run /protection enable after fixing Redis: "
        ++ error_text set.outside e)
      (record a { guard = some g })
after_restore set terminal a (none, g) =
    start_drainers (valid_bot_ids a.store) (record a { guard = some g; protection_enabled = true })

abbrev pub restore_on : Settings → Bool → Option RuntimeGuard → App → App
restore_on set terminal none a =
    warn_restore terminal
      (codes "protection auto-restore failed; runtime protection guard is not available") a
restore_on set terminal (some g) a =
    after_restore set terminal a (RuntimeGuard.enable set.dialer set.protection_config g)

abbrev pub loaded : Settings → Bool → Result Bool → App → App
loaded set terminal (err e) a =
    warn_restore terminal
      (codes "protection state file is unreadable; starting with protection disabled: "
        ++ error_text set.outside e)
      a
loaded set terminal (ok false) a = a
loaded set terminal (ok true) a = restore_on set terminal a.guard a

abbrev pub restore_from : Settings → Bool → Option Disk → App → App
restore_from set terminal none a = a
restore_from set terminal (some d) a =
    let (flag, d') = StateStore.load set.codec d in
    loaded set terminal flag (record a { state_disk = some d' })

unfoldable pub restore_protection_state : Settings → Bool → App → App
restore_protection_state set terminal a = restore_from set terminal a.state_disk a

-- ===== src/App/Switches/Restoring.antt =====
-- What a restart makes of the switch.
use webot_msg.Common.{
  ℕ, suc, ◌≡◌, refl, sym, codes, ap, ◌∙◌, Bool, true, false, Option, none, some, List, [], ◌∷◌,
  Text, Error, arith,
}
use webot_msg.Persist.{Disk, StateCodec, write_temp, fill_temp, save_state, load_state}
use webot_msg.Protection.RuntimeGuard.{
  BoundGuard, RuntimeGuard, EnableConfig, Dialer, guard_config, close_redis_client, retire_locked,
  retire_and_close, installed, pinged, dialled, enable, disable, begin_on, begin_operation,
  runtime_operation, Operation,
}
use webot_msg.Protection.RedisGuard.{RedisGuardConfig}
use webot_msg.Protection.StateStore.{save, load}
use webot_msg.Config.Store.{valid_bot_ids}
use webot_msg.App.Drainers.{stop_send_queue_drainers}
use webot_msg.App.Switches.{
  after_enable, after_restore, enabled_text, App, Settings, print, protection_is_enabled,
  start_protection_checker, start_drainer, start_all, start_drainers, stop_protection_checkers,
  persist_protection_state, enable_protection, disable_protection, restore_protection_state,
}

-- The starts of checkers and loops leave the switch alone.
record SameSwitch (a b : App) : Type 0 where
  disk : a.state_disk ≡ b.state_disk
  guard : a.guard ≡ b.guard
  flag : a.protection_enabled ≡ b.protection_enabled

start_one-SameSwitch :
    (bot : Text) (a : App) → SameSwitch (start_drainer bot (start_protection_checker bot a)) a
unfolding start_drainer start_protection_checker
start_one-SameSwitch bot a = record {
  disk = ground arith;
  guard = ground arith;
  flag = ground arith;
}

start_all-SameSwitch : (bots : List Text) (a : App) → SameSwitch (start_all bots a) a
unfolding start_all
start_all-SameSwitch [] a = record { disk = refl; guard = refl; flag = refl }
start_all-SameSwitch (bot ∷ bots) a =
    let one = start_drainer bot (start_protection_checker bot a) in
    let first = start_one-SameSwitch bot a in
    let rest = start_all-SameSwitch bots one in
    record {
      disk = rest.disk ∙ first.disk;
      guard = rest.guard ∙ first.guard;
      flag = rest.flag ∙ first.flag;
    }

start_drainers-SameSwitch : (bots : List Text) (a : App) → SameSwitch (start_drainers bots a) a
unfolding start_drainers start_drainer
start_drainers-SameSwitch [] a = record { disk = refl; guard = refl; flag = refl }
start_drainers-SameSwitch (bot ∷ bots) a =
    let rest = start_drainers-SameSwitch bots (start_drainer bot a) in
    record { disk = rest.disk; guard = rest.guard; flag = rest.flag }

-- A disk on which nothing fails.
save_state-works :
    (bytes : Text) (d : Disk)
    → d.fates ≡ []
    → save_state bytes d ≡ (none, record { file = some bytes; temp = none; fates = [] })
unfolding save_state fill_temp write_temp
save_state-works bytes d h = simp h

abbrev pub holds_flag : StateCodec → Bool → Disk
holds_flag codec enabled = record { file = some (codec.marshal enabled); temp = none; fates = [] }

persist-works :
    (set : Settings) (enabled : Bool) (a : App) (d : Disk)
    → a.state_disk ≡ some d
    → d.fates ≡ []
    → (persist_protection_state set enabled a).state_disk ≡ some (holds_flag set.codec enabled)
unfolding persist_protection_state save
persist-works set enabled a d e h =
    let done = save_state-works (set.codec.marshal enabled) d h in simp (e, done)

module _ (set : Settings) (a : App) (g : RuntimeGuard) (d : Disk) where
  after_enable-disk :
      (o : Option Error × RuntimeGuard)
      → a.state_disk ≡ some d
      → d.fates ≡ []
      → o.0 ≡ none
      → (after_enable set a o).1.state_disk ≡ some (holds_flag set.codec true)
  after_enable-disk (some e, g') ed h on = ground arith
  after_enable-disk (none, g') ed h on =
      let bots = valid_bot_ids a.store in
      let on_now : App = record a { guard = some g'; protection_enabled = true } in
      let kept = start_all-SameSwitch bots on_now in
      persist-works set true (print (enabled_text set) (start_all bots on_now)) d (kept.disk ∙ ed) h

  enable_protection-disk :
      a.guard ≡ some g
      → a.state_disk ≡ some d
      → d.fates ≡ []
      → (enable set.dialer set.protection_config g).0 ≡ none
      → (enable_protection set a).1.state_disk ≡ some (holds_flag set.codec true)
  unfolding enable_protection
  enable_protection-disk eg ed h on =
      let done = after_enable-disk (enable set.dialer set.protection_config g) ed h on in
      simp eg done

  disable_protection-disk :
      a.guard ≡ some g
      → a.state_disk ≡ some d
      → d.fates ≡ []
      → (disable_protection set a).1.state_disk ≡ some (holds_flag set.codec false)
  unfolding disable_protection stop_protection_checkers
  disable_protection-disk eg ed h =
      let off : App = record a {
        guard = some (disable g);
        protection_enabled = false;
        checkers = λ bot. false;
        drainers = stop_send_queue_drainers a.drainers;
      } in
      let done = persist-works set false (print (codes "Protection disabled.") off) d ed h in
      simp eg done

-- The guard is on, and the generation that new operations use has these settings.
record IsOn (cfg : EnableConfig) (g : RuntimeGuard) : Type 0 where
  enabled : g.enabled ≡ true
  generation : ℕ
  current : g.current ≡ some generation
  configured : (g.generations generation).guard.config ≡ guard_config cfg

retire_and_close-Switch :
    (old : Option ℕ) (g : RuntimeGuard) (n : ℕ)
    → ((retire_and_close old g).enabled ≡ g.enabled)
      × ((retire_and_close old g).current ≡ g.current)
      × (((retire_and_close old g).generations n).guard ≡ (g.generations n).guard)
unfolding retire_and_close retire_locked close_redis_client
retire_and_close-Switch old g n = (ground arith, ground arith, ground arith)

installed-IsOn :
    (cfg : EnableConfig) (c : ℕ) (old : Option ℕ) (g : RuntimeGuard)
    → IsOn cfg
        (retire_and_close old (installed (record { client = c; config = guard_config cfg }) g))
installed-IsOn cfg c old g =
    let new = installed (record { client = c; config = guard_config cfg }) g in
    let (e, k, s) = retire_and_close-Switch old new g.allocated in
    record {
      enabled = e;
      generation = g.allocated;
      current = k;
      configured = ap (λ (b : BoundGuard). b.config) s ∙ ground arith;
    }

pinged-IsOn :
    (o : Option Error) (cfg : EnableConfig) (c : ℕ) (g : RuntimeGuard)
    → (pinged o cfg c g).0 ≡ none
    → IsOn cfg (pinged o cfg c g).1
unfolding pinged
pinged-IsOn none cfg c g on = installed-IsOn cfg c g.current g
pinged-IsOn (some e) cfg c g on = absurd (ground arith)

dialled-IsOn :
    (o : Option Error) (dialer : Dialer) (cfg : EnableConfig) (g : RuntimeGuard)
    → (dialled o dialer cfg g).0 ≡ none
    → IsOn cfg (dialled o dialer cfg g).1
unfolding dialled
dialled-IsOn none dialer cfg g on =
    pinged-IsOn (dialer.ping g.clients) cfg g.clients (record g { clients = suc g.clients }) on
dialled-IsOn (some e) dialer cfg g on = absurd (ground arith)

enable-IsOn :
    (dialer : Dialer) (cfg : EnableConfig) (g : RuntimeGuard)
    → (enable dialer cfg g).0 ≡ none
    → IsOn cfg (enable dialer cfg g).1
unfolding enable
enable-IsOn dialer cfg g on =
    dialled-IsOn (dialer.dial cfg.redis_url cfg.redis_password) dialer cfg g on

-- The settings of the guard that an operation works with.
abbrev pub settings_begun : Operation × RuntimeGuard → ℕ → RedisGuardConfig
settings_begun (o, g) i = (g.generations (g.operations i).generation).guard.config

-- The program protects its sends: it says that the protection is on, and an operation that begins
-- goes through Redis with these settings.
pub record GuardsSends (cfg : EnableConfig) (a : App) : Type 0 where
  pub said : protection_is_enabled a ≡ true
  pub guard : RuntimeGuard
  pub has_guard : a.guard ≡ some guard
  pub guarded : (begin_operation guard).0 ≡ runtime_operation guard.begun
  pub configured : settings_begun (begin_operation guard) guard.begun ≡ guard_config cfg

begun-settings :
    (g : RuntimeGuard) (a : ℕ)
    → settings_begun (begin_on (some a) g) g.begun ≡ (g.generations a).guard.config
unfolding begin_on
begun-settings g a = ground arith

IsOn-GuardsSends :
    (cfg : EnableConfig) (a : App) (g : RuntimeGuard)
    → a.guard ≡ some g
    → IsOn cfg g
    → GuardsSends cfg a
unfolding protection_is_enabled begin_operation begin_on
IsOn-GuardsSends cfg a g has on = record {
  said = simp (has, on.enabled);
  guard = g;
  has_guard = has;
  guarded = simp (on.enabled, on.current);
  configured = simp (on.enabled, on.current) (begun-settings g on.generation ∙ on.configured);
}

after_restore-GuardsSends :
    (set : Settings) (terminal : Bool) (b : App) (o : Option Error × RuntimeGuard)
    → o.0 ≡ none
    → IsOn set.protection_config o.1
    → GuardsSends set.protection_config (after_restore set terminal b o)
after_restore-GuardsSends set terminal b (some e, g) on up = absurd (ground arith)
after_restore-GuardsSends set terminal b (none, g) on up =
    let bots = valid_bot_ids b.store in
    let on_now : App = record b { guard = some g; protection_enabled = true } in
    IsOn-GuardsSends set.protection_config (start_drainers bots on_now) g
      (start_drainers-SameSwitch bots on_now).guard up

restore-on :
    (set : Settings) (terminal : Bool) (b : App) (g : RuntimeGuard)
    → b.guard ≡ some g
    → b.state_disk ≡ some (holds_flag set.codec true)
    → (enable set.dialer set.protection_config g).0 ≡ none
    → GuardsSends set.protection_config (restore_protection_state set terminal b)
unfolding restore_protection_state load load_state
restore-on set terminal b g eg ed on =
    let back = set.codec.unmarshal-marshal true in
    let read : App = record b { state_disk = some (holds_flag set.codec true) } in
    let done =
      after_restore-GuardsSends set terminal read (enable set.dialer set.protection_config g) on
        (enable-IsOn set.dialer set.protection_config g on) in
    simp (ed, back, eg) done

restore-off :
    (set : Settings) (terminal : Bool) (b : App)
    → b.state_disk ≡ some (holds_flag set.codec false)
    → restore_protection_state set terminal b ≡ b
unfolding restore_protection_state load load_state
restore-off set terminal b ed =
    let back = set.codec.unmarshal-marshal false in
    simp (ed, back) (ap {A = Option Disk} (λ x. record b { state_disk = x }) (sym ed))

-- A program whose protection was switched on, on a disk on which nothing fails, guards its sends after
-- a restart, if Redis can be reached again: it says that the protection is on, and an operation that
-- begins goes through Redis with the settings of the protection.
pub restore-enable_protection :
    (set : Settings) (terminal : Bool) (a b : App) (g g' : RuntimeGuard) (d : Disk)
    → a.guard ≡ some g
    → a.state_disk ≡ some d
    → d.fates ≡ []
    → (enable set.dialer set.protection_config g).0 ≡ none
    → b.guard ≡ some g'
    → b.state_disk ≡ (enable_protection set a).1.state_disk
    → (enable set.dialer set.protection_config g').0 ≡ none
    → GuardsSends set.protection_config (restore_protection_state set terminal b)
restore-enable_protection set terminal a b g g' d ga ed h on gb same on' =
    restore-on set terminal b g' gb (same ∙ enable_protection-disk set a g d ga ed h on) on'

-- A program whose protection was switched off, on a disk on which nothing fails, is restarted as if
-- there were nothing to restore.
pub restore-disable_protection :
    (set : Settings) (terminal : Bool) (a b : App) (g : RuntimeGuard) (d : Disk)
    → a.guard ≡ some g
    → a.state_disk ≡ some d
    → d.fates ≡ []
    → b.state_disk ≡ (disable_protection set a).1.state_disk
    → restore_protection_state set terminal b ≡ b
restore-disable_protection set terminal a b g d ga ed h same =
    restore-off set terminal b (same ∙ disable_protection-disk set a g d ga ed h)

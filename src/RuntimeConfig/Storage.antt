-- ===== src/RuntimeConfig/Storage.antt =====
-- internal/runtimeconfig/config.go: `PrepareStorage`, over the file system.
use webot_msg.Common.{
  ℕ, Bool, true, false, ◌||◌, not, if◌then◌else◌, Text, codes, text_eq, is_empty, Error, Result, ok,
  err,
}
use webot_msg.Common.Actions.{Action, return, ◌>>=◌, ◌>>◌, lift, label, labelled, when}
use webot_msg.RuntimeConfig.{Config, Env, default_config}
use webot_msg.RuntimeConfig.Resolve.{resolve}

-- What `os.Stat` says of a path.
pub data Stat : Type 0 where
  exists not_exist : Stat
  stat_failed : Error → Stat

-- What the program asks of the operating system. `open_new` is an open with O_CREATE and O_EXCL.
-- Modes are the permission bits.
pub record Files (W : Type 0) : Type 0 where
  pub stat : Text → W → Stat × W
  pub mkdir_all : Text → ℕ → Action W (Unit {0})
  pub chmod : Text → ℕ → Action W (Unit {0})
  pub open_file : Text → Action W ℕ
  pub open_new : Text → ℕ → Action W ℕ
  pub copy : ℕ → ℕ → Action W (Unit {0})
  pub close : ℕ → Action W (Unit {0})

abbrev pub legacy_auth_path : Text
legacy_auth_path = codes "./config/auth.json"

abbrev owner_only : ℕ
owner_only = 448

abbrev readable : ℕ
readable = 493

unfoldable pub uses_default_auth_path : Env → Config → Result Bool
uses_default_auth_path env c = elim (resolve env default_config) [
  | ok d ↦ ok (text_eq (env.clean c.storage.auth_path) (env.clean d.storage.auth_path))
  | err e ↦ err e
]

unfoldable pub uses_default_control_socket_path : Env → Config → Result Bool
uses_default_control_socket_path env c = elim (resolve env default_config) [
  | ok d ↦ ok (text_eq (env.clean c.control.socket_path) (env.clean d.control.socket_path))
  | err e ↦ err e
]

module _ {W : Type 0} (files : Files W) where
  unfoldable pub ensure_parent_dir : Env → Text → ℕ → Bool → Action W (Unit {0})
  ensure_parent_dir env path perm force_perm =
      let dir = env.dir path in
      if is_empty path
      then return tt
      else files.mkdir_all dir perm
        >> when (not (text_eq dir (codes ".") || not force_perm)) (files.chmod dir perm)

  -- The error of the copy comes before that of the close.
  abbrev pub first_error : Result (Unit {0}) → Result (Unit {0}) → Result (Unit {0})
  first_error (err e) closed = err e
  first_error (ok done) closed = closed

  -- The source is closed on every way out, and the error of that is dropped.
  abbrev pub closing : ℕ → Result (Unit {0}) × W → Result (Unit {0}) × W
  closing input (r, w) = let (closed, w') = files.close input w in (r, w')

  abbrev pub fill : ℕ → ℕ → Action W (Unit {0})
  fill input output w =
      let (copied, w1) = files.copy output input w in
      let (closed, w2) = files.close output w1 in (first_error copied closed, w2)

  unfoldable pub copy_file : Text → Text → Action W (Unit {0})
  copy_file dst src = do
    input ← files.open_file src
    λ w. closing input ((files.open_new dst 384 >>= fill input) w)

  -- After the look at the target, then after the look at the legacy file.
  unfoldable pub copy_found : Text → Stat × W → Result Bool × W
  copy_found target (exists, w) =
      (labelled (codes "copy legacy auth store") (copy_file target legacy_auth_path) >> return true)
        w
  copy_found target (not_exist, w) = (ok false, w)
  copy_found target (stat_failed e, w) = label (codes "legacy auth path") (err e, w)

  unfoldable pub copy_unless_there : Text → Stat × W → Result Bool × W
  copy_unless_there target (exists, w) = (ok false, w)
  copy_unless_there target (not_exist, w) = copy_found target (files.stat legacy_auth_path w)
  copy_unless_there target (stat_failed e, w) =
      label (codes "storage.auth_path: stat target") (err e, w)

  unfoldable pub copy_legacy_auth : Env → Config → Action W Bool
  copy_legacy_auth env c = do
    uses_default ← lift (uses_default_auth_path env c)
    λ w.
        if uses_default
        then copy_unless_there c.storage.auth_path (files.stat c.storage.auth_path w)
        else (ok false, w)

  unfoldable pub prepare_storage : Env → Config → Action W Bool
  prepare_storage env c = do
    default_auth ← lift (uses_default_auth_path env c)
    labelled (codes "storage.auth_path")
        (ensure_parent_dir env c.storage.auth_path owner_only default_auth)
    when (not (is_empty c.log.file_path))
        (labelled (codes "log.file_path") (ensure_parent_dir env c.log.file_path readable false))
    default_socket ← lift (uses_default_control_socket_path env c)
    labelled (codes "control.socket_path")
        (ensure_parent_dir env c.control.socket_path owner_only default_socket)
    copy_legacy_auth env c

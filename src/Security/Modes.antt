-- ===== src/Security/Modes.antt =====
-- internal/security/modes.go: what `os.Lstat` must tell of the configuration, of a key, and of the
-- state directory.
pub mod Owned
use blackboxd.Prelude.{ℕ, ◌/◌, ◌%◌, Bool, true, false, not, ◌||◌, ◌&&◌, Option, none, some, ◌==◌}

-- The file's type, its permission bits, and its owner, which some platforms do not tell.
pub data Kind : Type 0 where
  regular directory other : Kind

pub record FileInfo : Type 0 where
  pub kind : Kind
  pub perm : ℕ
  pub owner : Option ℕ

unfoldable pub is_regular : Kind → Bool
is_regular regular = true
is_regular _ = false

unfoldable pub is_dir : Kind → Bool
is_dir directory = true
is_dir _ = false

-- 0600 and 0700.
abbrev pub mode_file_sensitive : ℕ
mode_file_sensitive = 384

abbrev pub mode_dir_state : ℕ
mode_dir_state = 448

-- `perm & 0o022 != 0`.
unfoldable pub others_write : ℕ → Bool
others_write perm = not ((perm / 16) % 2 == 0) || not ((perm / 2) % 2 == 0)

-- `checkOwnedByCurrentUser`, for the effective user `euid`.
unfoldable pub check_owned : ℕ → Option ℕ → Bool
check_owned euid none = false
check_owned euid (some uid) = uid == euid

-- The three checks: whether they return nil, on what `os.Lstat` tells, `none` for its error.
unfoldable pub check_config_mode : Option FileInfo → Bool
check_config_mode none = false
check_config_mode (some info) = is_regular info.kind && not (others_write info.perm)

unfoldable pub check_key_mode : ℕ → Option FileInfo → Bool
check_key_mode euid none = false
check_key_mode euid (some info) =
    is_regular info.kind && ((info.perm == mode_file_sensitive) && check_owned euid info.owner)

unfoldable pub check_state_dir_mode : ℕ → Option FileInfo → Bool
check_state_dir_mode euid none = false
check_state_dir_mode euid (some info) =
    is_dir info.kind && ((info.perm == mode_dir_state) && check_owned euid info.owner)

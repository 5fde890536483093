-- ===== src/Security/Modes/Owned.antt =====
-- What the mode checks accept.
use blackboxd.Prelude.{ℕ, ◌≡◌, ◌↔◌, refl, true, Option, none, some, arith}
use blackboxd.Security.Modes.{
  FileInfo, Kind, regular, directory, other, is_regular, is_dir, check_owned, check_key_mode,
  check_state_dir_mode,
}

-- There is something at the path, of this kind, with exactly these permission bits, and owned by
-- this user.
pub record IsOwned (kind : Kind) (perm euid : ℕ) (found : Option FileInfo) : Type 0 where
  pub info : FileInfo
  pub there : found ≡ some info
  pub of_kind : info.kind ≡ kind
  pub of_mode : info.perm ≡ perm
  pub of_user : info.owner ≡ some euid

pub is_regular_iff : (k : Kind) → (is_regular k ≡ true) ↔ (k ≡ regular)
unfolding is_regular
is_regular_iff regular = ground arith
is_regular_iff directory = ground arith
is_regular_iff other = ground arith

is_dir_iff : (k : Kind) → (is_dir k ≡ true) ↔ (k ≡ directory)
unfolding is_dir
is_dir_iff regular = ground arith
is_dir_iff directory = ground arith
is_dir_iff other = ground arith

check_owned_iff :
    (euid : ℕ) (owner : Option ℕ) → (check_owned euid owner ≡ true) ↔ (owner ≡ some euid)
unfolding check_owned
check_owned_iff euid none = ground arith
check_owned_iff euid (some uid) = ground arith

pub check_key_mode_iff :
    (euid : ℕ) (found : Option FileInfo)
    → (check_key_mode euid found ≡ true) ↔ IsOwned regular 384 euid found
unfolding check_key_mode
check_key_mode_iff euid none = (λ h. absurd (cc), λ h. absurd (ground (arith, h.there)))
check_key_mode_iff euid (some info) =
    let kinds = is_regular_iff info.kind in
    let owners = check_owned_iff euid info.owner in
    (
      λ h. record {
        info = info;
        there = refl;
        of_kind = ground (arith, h);
        of_mode = ground (arith, h);
        of_user = ground (arith, h);
      },
      λ h. ground (arith, h.there, h.of_kind, h.of_mode, h.of_user),
    )

pub check_state_dir_mode_iff :
    (euid : ℕ) (found : Option FileInfo)
    → (check_state_dir_mode euid found ≡ true) ↔ IsOwned directory 448 euid found
unfolding check_state_dir_mode
check_state_dir_mode_iff euid none = (λ h. absurd (cc), λ h. absurd (ground (arith, h.there)))
check_state_dir_mode_iff euid (some info) =
    let kinds = is_dir_iff info.kind in
    let owners = check_owned_iff euid info.owner in
    (
      λ h. record {
        info = info;
        there = refl;
        of_kind = ground (arith, h);
        of_mode = ground (arith, h);
        of_user = ground (arith, h);
      },
      λ h. ground (arith, h.there, h.of_kind, h.of_mode, h.of_user),
    )

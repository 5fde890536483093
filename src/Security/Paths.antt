-- ===== src/Security/Paths.antt =====
-- internal/security/paths.go, with `filepath.Clean` of a Unix system.
pub mod Segments
pub mod Canonical
use blackboxd.Prelude.{
  ◌≡◌, ◌↔◌, refl, sym, ◌∙◌, ◌⊎◌, inl, inr, Bool, true, false, not, ◌||◌, List, [], ◌∷◌, ◌++◌,
  Result, ok, err, ◌==◌, if◌then◌else◌, Bool-cases, append_assoc, arith,
}
use blackboxd.Bytes.{Bytes, bytes, equal, has_prefix, split}
use blackboxd.Bytes.Laws.{equal_iff}

-- Every refusal wraps `ErrInsecure`.
pub data Insecure : Type 0 where
  insecure : Insecure

-- `cleaned[0] == '/'`.
unfoldable pub is_abs : Bytes → Bool
is_abs [] = false
is_abs (c ∷ cs) = c == b'/'

-- A `..` takes the last segment back; it has none to take back at the root, and is kept in front of
-- a relative path. The segments are kept last one first.
unfoldable pub take_back : Bool → List Bytes → List Bytes
take_back rooted [] = if rooted then [] else bytes ".." ∷ []
take_back rooted (seg ∷ segs) = if equal seg (bytes "..") then bytes ".." ∷ seg ∷ segs else segs

unfoldable pub add_segment : Bool → List Bytes → Bytes → List Bytes
add_segment rooted segs seg =
    if equal seg [] || equal seg (bytes ".")
    then segs
    else if equal seg (bytes "..")
    then take_back rooted segs
    else seg ∷ segs

unfoldable pub add_segments : Bool → List Bytes → List Bytes → List Bytes
add_segments rooted segs [] = segs
add_segments rooted segs (s ∷ ss) = add_segments rooted (add_segment rooted segs s) ss

-- The segments, last one first, with slashes between them and `tail` behind them.
unfoldable pub join_segments : List Bytes → Bytes → Bytes
join_segments [] tail = tail
join_segments (s ∷ []) tail = s ++ tail
join_segments (s ∷ t ∷ ss) tail = join_segments (t ∷ ss) (b'/' ∷ (s ++ tail))

-- `filepath.Clean`.
unfoldable pub clean : Bytes → Bytes
clean p =
    let segs = add_segments (is_abs p) [] (split b'/' p) in
    if is_abs p
    then b'/' ∷ join_segments segs []
    else (let joined = join_segments segs [] in if equal joined [] then bytes "." else joined)

unfoldable pub has_dot_dot : List Bytes → Bool
has_dot_dot [] = false
has_dot_dot (s ∷ ss) = equal s (bytes "..") || has_dot_dot ss

-- `CanonicalizePath`.
unfoldable pub canonicalize_path : Bytes → Result Insecure Bytes
canonicalize_path p =
    if equal p []
    then err insecure
    else if not (is_abs (clean p))
    then err insecure
    else if has_dot_dot (split b'/' (clean p))
    then err insecure
    else ok (clean p)

-- One round of the loop of `CheckUnderAllowlist`.
unfoldable pub under_prefix : Bytes → Bytes → Bool
under_prefix cleaned raw =
    equal cleaned (clean raw) || has_prefix cleaned (clean raw ++ (b'/' ∷ []))

-- `CheckUnderAllowlist`: whether it returns nil. An empty list has no prefix to be under.
unfoldable pub check_under_allowlist : Bytes → List Bytes → Bool
check_under_allowlist cleaned [] = false
check_under_allowlist cleaned (raw ∷ prefixes) =
    under_prefix cleaned raw || check_under_allowlist cleaned prefixes

-- `ValidatePath`.
unfoldable pub validate_path : Bytes → List Bytes → Result Insecure Bytes
validate_path p prefixes = elim (canonicalize_path p) [
  | err e ↦ err e
  | ok cleaned ↦ if check_under_allowlist cleaned prefixes then ok cleaned else err insecure
]

pub has_prefix_iff : (s p : Bytes) → (has_prefix s p ≡ true) ↔ ((rest : Bytes) × (s ≡ p ++ rest))
unfolding has_prefix
has_prefix_iff s [] = (λ h. (s, refl), λ h. refl)
has_prefix_iff [] (c ∷ p) = (λ h. absurd (cc), λ h. absurd (ground (arith, h.1)))
has_prefix_iff (b ∷ s) (c ∷ p) = ground (arith, has_prefix_iff s p)

-- A path is under a prefix if it is the prefix, or the prefix with a slash and more behind it.
abbrev pub IsUnder : Bytes → Bytes → Type 0
IsUnder path p = (path ≡ p) ⊎ ((rest : Bytes) × (path ≡ p ++ (b'/' ∷ rest)))

abbrev pub IsAllowed : Bytes → List Bytes → Type 0
IsAllowed path [] = ⊥
IsAllowed path (raw ∷ prefixes) = IsUnder path (clean raw) ⊎ IsAllowed path prefixes

behind_slash_iff :
    (path p : Bytes)
    → (has_prefix path (p ++ (b'/' ∷ [])) ≡ true) ↔ ((rest : Bytes) × (path ≡ p ++ (b'/' ∷ rest)))
behind_slash_iff path p =
    let (there, back) = has_prefix_iff path (p ++ (b'/' ∷ [])) in
    (
      λ h. let (rest, e) = there h in (rest, e ∙ append_assoc p (b'/' ∷ []) rest),
      λ h. back (h.0, h.1 ∙ sym (append_assoc p (b'/' ∷ []) h.0)),
    )

under_prefix_iff : (path raw : Bytes) → (under_prefix path raw ≡ true) ↔ IsUnder path (clean raw)
unfolding under_prefix
under_prefix_iff path raw = elim (Bool-cases (equal path (clean raw))) [
  | inl same ↦ (λ h. inl ((equal_iff path (clean raw)).0 same), λ h. rw same refl)
  | inr other ↦ (
    λ h. inr ((behind_slash_iff path (clean raw)).0 (rw other at h)),
    λ h. elim h [
      | inl same ↦ rw ((equal_iff path (clean raw)).1 same) refl
      | inr behind ↦ rw other ((behind_slash_iff path (clean raw)).1 behind)
    ],
  )
]

-- CheckUnderAllowlist accepts a path exactly when, for some prefix of the list, the path is the
-- cleaned prefix or the cleaned prefix followed by a slash and anything.
pub check_under_allowlist_iff :
    (path : Bytes) (prefixes : List Bytes)
    → (check_under_allowlist path prefixes ≡ true) ↔ IsAllowed path prefixes
unfolding check_under_allowlist
check_under_allowlist_iff path [] = (λ h. absurd (ground (arith, h)), λ h. absurd h)
check_under_allowlist_iff path (raw ∷ prefixes) =
    ground (arith, under_prefix_iff path raw, check_under_allowlist_iff path prefixes)

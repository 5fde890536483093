-- ===== src/Config/Validate/Safe.antt =====
-- The configurations that `Validate` accepts, described without its code.
use blackboxd.Prelude.{
  ℕ, ◌≤◌, ◌≡◌, ◌≢◌, ◌↔◌, ◌⊎◌, inl, inr, refl, Bool, true, false, not, ◌||◌, List, [], ◌∷◌, All,
  length, Option, none, some, ok, test_iff, chain_iff, Bool-cases, arith,
}
use blackboxd.Bytes.{Bytes, bytes, equal}
use blackboxd.Bytes.Laws.{equal_iff}
use blackboxd.Bytes.Maps.{get}
use blackboxd.Security.Paths.{
  is_abs, clean, canonicalize_path, validate_path, IsAllowed, check_under_allowlist_iff,
}
use blackboxd.Security.Paths.Canonical.{canonicalize_rooted, canonicalize_relative, some_rooted}
use blackboxd.Security.Modes.Owned.{IsOwned, check_state_dir_mode_iff}
use blackboxd.Security.Modes.{directory, check_state_dir_mode}
use blackboxd.Config.Schema.{
  DaemonConfig, SourceConfig, ParserConfig, is_id_byte, all_id_bytes, id_pattern,
}
use blackboxd.Config.Validate.{
  FileSystem, accepts, insecure, invalid, valid_log_level, validate_state_dir, validate_daemon,
  is_known, validate_parser, validate_each_parser, validate_parsers, validate_source,
  validate_source_type, validate_sources, is_defined,
}

-- A letter, a digit, an underscore or a hyphen.
abbrev pub IsIdByte : ℕ → Type 0
IsIdByte c =
    ((b'A' ≤ c) × (c ≤ b'Z'))
    ⊎ ((b'a' ≤ c) × (c ≤ b'z'))
    ⊎ ((b'0' ≤ c) × (c ≤ b'9'))
    ⊎ (c ≡ b'_')
    ⊎ (c ≡ b'-')

abbrev pub IsId : Bytes → Type 0
IsId s = (1 ≤ length s) × (length s ≤ 64) × All IsIdByte s

abbrev pub IsLogLevel : Bytes → Type 0
IsLogLevel s = (s ≡ bytes "debug") ⊎ (s ≡ bytes "info") ⊎ (s ≡ bytes "warn") ⊎ (s ≡ bytes "error")

-- From the root, and under a prefix of the list when it is cleaned.
abbrev pub IsAllowedPath : List Bytes → Bytes → Type 0
IsAllowedPath allow p = (is_abs p ≡ true) × IsAllowed (clean p) allow

abbrev pub IsStateDir : FileSystem → Bool → List Bytes → Bytes → Type 0
IsStateDir fs skip allow dir =
    (dir ≡ [])
    ⊎ (IsAllowedPath allow dir × ((skip ≡ true) ⊎ IsOwned directory 448 fs.euid (fs.lstat dir)))

abbrev pub Has : Bytes → List Bytes → Type 0
Has s [] = ⊥
Has s (k ∷ ks) = (k ≡ s) ⊎ Has s ks

abbrev pub IsDaemon : FileSystem → Bool → List Bytes → DaemonConfig → Type 0
IsDaemon fs skip allow d =
    IsId d.device_id
    × (IsId d.tenant × (IsLogLevel d.log_level × IsStateDir fs skip allow d.state_dir))

IsIdByte-iff : (c : ℕ) → (is_id_byte c ≡ true) ↔ IsIdByte c
unfolding is_id_byte
IsIdByte-iff c = ground arith

id_bytes_iff : (s : Bytes) → (all_id_bytes s ≡ true) ↔ All IsIdByte s
unfolding all_id_bytes
id_bytes_iff [] = (λ h. tt, λ h. refl)
id_bytes_iff (c ∷ s) = ground (arith, IsIdByte-iff c, id_bytes_iff s)

id_pattern_iff : (s : Bytes) → (id_pattern s ≡ true) ↔ IsId s
unfolding id_pattern
id_pattern_iff s = ground (arith, id_bytes_iff s)

IsLogLevel-iff : (s : Bytes) → (valid_log_level s ≡ true) ↔ IsLogLevel s
unfolding valid_log_level
IsLogLevel-iff s = ground (
  arith,
  equal_iff s (bytes "debug"),
  equal_iff s (bytes "info"),
  equal_iff s (bytes "warn"),
  equal_iff s (bytes "error"),
)

pub canonicalize_iff : (p : Bytes) → (accepts (canonicalize_path p) ≡ true) ↔ (is_abs p ≡ true)
canonicalize_iff p = elim (Bool-cases (is_abs p)) [
  | inl root ↦ let e = canonicalize_rooted p root in ground (arith, e, root)
  | inr relative ↦ let e = canonicalize_relative p relative in ground (arith, e, relative)
]

validate_path_iff :
    (p : Bytes) (allow : List Bytes)
    → (accepts (validate_path p allow) ≡ true) ↔ IsAllowedPath allow p
unfolding validate_path
validate_path_iff p allow =
    let k = check_under_allowlist_iff (clean p) allow in
    elim (Bool-cases (is_abs p)) [
      | inl root ↦ let e = canonicalize_rooted p root in ground (arith, e, root, k)
      | inr relative ↦ let e = canonicalize_relative p relative in ground (arith, e, relative, k)
    ]

-- A check that can be skipped.
pub skip_iff {ℓ} :
    {A : Type ℓ} (skip b : Bool) → (b ≡ true) ↔ A → ((skip || b) ≡ true) ↔ ((skip ≡ true) ⊎ A)
skip_iff true b h = (λ e. inl refl, λ e. refl)
skip_iff false b h = (λ e. inr (h.0 e), λ e. elim e [ inl f ↦ absurd (cc) | inr a ↦ h.1 a ])

IsStateDir-iff :
    (fs : FileSystem) (skip : Bool) (allow : List Bytes) (dir : Bytes)
    → (validate_state_dir fs skip allow dir ≡ ok tt) ↔ IsStateDir fs skip allow dir
unfolding validate_state_dir
IsStateDir-iff fs skip allow dir =
    let mode = check_state_dir_mode_iff fs.euid (fs.lstat dir) in
    let k =
      chain_iff _ _ (test_iff _ insecure (validate_path_iff dir allow))
        (test_iff _ insecure (skip_iff skip (check_state_dir_mode fs.euid (fs.lstat dir)) mode)) in
    elim (Bool-cases (equal dir [])) [
      | inl e ↦ rw e (λ h. inl ((equal_iff dir []).0 e), λ h. refl)
      | inr ne ↦ rw ne (
        λ h. inr (k.0 h),
        λ h. elim h [ inl e ↦ absurd (ground (arith, (equal_iff dir []).1 e)) | inr s ↦ k.1 s ],
      )
    ]

pub IsDaemon-iff :
    (fs : FileSystem) (skip : Bool) (allow : List Bytes) (d : DaemonConfig)
    → (validate_daemon fs skip allow d ≡ ok tt) ↔ IsDaemon fs skip allow d
unfolding validate_daemon
IsDaemon-iff fs skip allow d = chain_iff _ _ (test_iff _ insecure (id_pattern_iff d.device_id)) (
    chain_iff _ _ (test_iff _ insecure (id_pattern_iff d.tenant)) (
      chain_iff _ _ (test_iff _ invalid (IsLogLevel-iff d.log_level))
        (IsStateDir-iff fs skip allow d.state_dir)))

is_known_iff : (n : Bytes) (known : List Bytes) → (is_known n known ≡ true) ↔ Has n known
unfolding is_known
is_known_iff n [] = ground arith
is_known_iff n (k ∷ known) = ground (arith, equal_iff k n, is_known_iff n known)

pub nonempty_iff : (s : Bytes) → (not (equal s []) ≡ true) ↔ (s ≢ [])
nonempty_iff s = ground (arith, equal_iff s [])

-- A parser has a type, and it is a registered one.
abbrev pub IsParser : {V : Type 0} → List Bytes → Bytes × ParserConfig V → Type 0
IsParser known (name, p) = (p.type ≢ []) × Has p.type known

-- A source has a parser that is defined; it is a file or a journal of an allowed path, or kmsg.
abbrev pub IsSource :
    {V : Type 0} → List Bytes → List (Bytes × ParserConfig V) → Bytes × SourceConfig → Type 0
IsSource {V} allow parsers (name, s) =
    ((p : ParserConfig V) × (get s.parser parsers ≡ some p))
    × ((((s.type ≡ bytes "file") ⊎ (s.type ≡ bytes "journal")) × IsAllowedPath allow s.path)
        ⊎ (s.type ≡ bytes "kmsg"))

source_type_iff :
    (allow : List Bytes) (s : SourceConfig)
    → (validate_source_type allow s ≡ ok tt) ↔ (
        (((s.type ≡ bytes "file") ⊎ (s.type ≡ bytes "journal")) × IsAllowedPath allow s.path)
        ⊎ (s.type ≡ bytes "kmsg"))
unfolding validate_source_type
source_type_iff allow s =
    let k =
      chain_iff _ _ (test_iff _ invalid (nonempty_iff s.path))
        (test_iff _ insecure (validate_path_iff s.path allow)) in
    ground (
      arith,
      k,
      some_rooted s.path,
      equal_iff s.path [],
      equal_iff s.type (bytes "file"),
      equal_iff s.type (bytes "journal"),
      equal_iff s.type (bytes "kmsg"),
    )

module _ {V : Type 0} where
  each-IsParser_iff :
      (known : List Bytes) (ps : List (Bytes × ParserConfig V))
      → (validate_each_parser known ps ≡ ok tt) ↔ All (IsParser known) ps
  unfolding validate_each_parser validate_parser
  each-IsParser_iff known [] = (λ h. tt, λ h. refl)
  each-IsParser_iff known ((name, p) ∷ ps) =
      chain_iff _ _
        (chain_iff _ _ (test_iff _ invalid (nonempty_iff p.type))
          (test_iff _ invalid (is_known_iff p.type known)))
        (each-IsParser_iff known ps)

  pub parsers_iff :
      (known : List Bytes) (ps : List (Bytes × ParserConfig V))
      → (validate_parsers known ps ≡ ok tt) ↔ ((ps ≢ []) × All (IsParser known) ps)
  unfolding validate_parsers
  parsers_iff known [] = (λ h. absurd (cc), λ h. absurd (h.0 refl))
  parsers_iff known (p ∷ ps) =
      let (there, back) = each-IsParser_iff known (p ∷ ps) in
      (λ h. (λ e. cc, there h), λ h. back h.1)

  defined_iff :
      (k : Bytes) (ps : List (Bytes × ParserConfig V))
      → (is_defined (get k ps) ≡ true) ↔ ((p : ParserConfig V) × (get k ps ≡ some p))
  defined_iff k ps = go (get k ps)
    where
      go :
          (o : Option (ParserConfig V))
          → (is_defined o ≡ true) ↔ ((p : ParserConfig V) × (o ≡ some p))
      go none = (λ h. absurd (cc), λ h. absurd (ground (arith, h.1)))
      go (some p) = (λ h. (p, refl), λ h. refl)

  pub sources_iff :
      (allow : List Bytes) (ps : List (Bytes × ParserConfig V)) (ss : List (Bytes × SourceConfig))
      → (validate_sources allow ps ss ≡ ok tt) ↔ All (IsSource allow ps) ss
  unfolding validate_sources validate_source
  sources_iff allow ps [] = (λ h. tt, λ h. refl)
  sources_iff allow ps ((name, s) ∷ ss) =
      chain_iff _ _
        (chain_iff _ _ (test_iff _ invalid (defined_iff s.parser ps)) (source_type_iff allow s))
        (sources_iff allow ps ss)

-- ===== src/Config/Validate.antt =====
-- internal/config/load.go: `Validate`. An error either wraps ErrInsecure or is a plain one. A map is
-- gone through in the order of its list.
pub mod Safe
pub mod Connection
pub mod Accepted
use blackboxd.Prelude.{
  ℕ, Bool, true, false, not, ◌&&◌, ◌||◌, List, [], ◌∷◌, Option, none, some, Result, ok, err, ltb,
  if◌then◌else◌, require, ◌>>◌,
}
use blackboxd.Bytes.{Bytes, bytes, equal, has_prefix}
use blackboxd.Bytes.Maps.{get}
use blackboxd.Security.Paths.{Insecure, canonicalize_path, validate_path}
use blackboxd.Security.Modes.{FileInfo, is_regular, check_key_mode, check_state_dir_mode}
use blackboxd.Security.Pin.{parse_pin}
use blackboxd.Config.Schema.{
  Config, DaemonConfig, SourceConfig, ParserConfig, TransportConfig, id_pattern, allowlist,
}

pub data ConfigError : Type 0 where
  insecure invalid : ConfigError

-- `error`, nil for `ok`.
abbrev pub Checked : Type 0
Checked = Result ConfigError (Unit {0})

-- What the calls of the file system tell: `os.Lstat` and `os.Stat` of a path, and the effective user.
pub record FileSystem : Type 0 where
  pub lstat : Bytes → Option FileInfo
  pub stat : Bytes → Option FileInfo
  pub euid : ℕ

-- Whether a check of internal/security returns no error; all its errors wrap ErrInsecure.
abbrev pub accepts : {A : Type 0} → Result Insecure A → Bool
accepts (ok a) = true
accepts (err e) = false

unfoldable pub valid_log_level : Bytes → Bool
valid_log_level s =
    equal s (bytes "debug")
    || (equal s (bytes "info") || (equal s (bytes "warn") || equal s (bytes "error")))

-- The state directory, where there is one. `skip` is `SkipFSChecks`.
unfoldable pub validate_state_dir : FileSystem → Bool → List Bytes → Bytes → Checked
validate_state_dir fs skip allow dir =
    if equal dir []
    then ok tt
    else require (accepts (validate_path dir allow)) insecure
      >> require (skip || check_state_dir_mode fs.euid (fs.lstat dir)) insecure

unfoldable pub validate_daemon : FileSystem → Bool → List Bytes → DaemonConfig → Checked
validate_daemon fs skip allow d =
    require (id_pattern d.device_id) insecure
    >> require (id_pattern d.tenant) insecure
    >> require (valid_log_level d.log_level) invalid
    >> validate_state_dir fs skip allow d.state_dir

-- `knownSet[n]`.
unfoldable pub is_known : Bytes → List Bytes → Bool
is_known n [] = false
is_known n (k ∷ known) = equal k n || is_known n known

-- The switch on the type of a source; `dmesg`, an empty type and an unknown one have plain errors.
unfoldable pub validate_source_type : List Bytes → SourceConfig → Checked
validate_source_type allow s =
    if equal s.type (bytes "file") || equal s.type (bytes "journal")
    then require (not (equal s.path [])) invalid
      >> require (accepts (validate_path s.path allow)) insecure
    else if equal s.type (bytes "kmsg")
    then ok tt
    else err invalid

module _ {V : Type 0} where
  -- A round of the loop of `validateParsers`, and the loop.
  unfoldable pub validate_parser : List Bytes → ParserConfig V → Checked
  validate_parser known p =
      require (not (equal p.type [])) invalid >> require (is_known p.type known) invalid

  unfoldable pub validate_each_parser : List Bytes → List (Bytes × ParserConfig V) → Checked
  validate_each_parser known [] = ok tt
  validate_each_parser known ((name, p) ∷ ps) =
      validate_parser known p >> validate_each_parser known ps

  -- `validateParsers`, for the registered names.
  unfoldable pub validate_parsers : List Bytes → List (Bytes × ParserConfig V) → Checked
  validate_parsers known [] = err invalid
  validate_parsers known (p ∷ ps) = validate_each_parser known (p ∷ ps)

  abbrev pub is_defined : Option (ParserConfig V) → Bool
  is_defined none = false
  is_defined (some p) = true

  -- A round of the loop of `validateSources`, and the loop.
  unfoldable pub validate_source :
      List Bytes → List (Bytes × ParserConfig V) → SourceConfig → Checked
  validate_source allow parsers s =
      require (is_defined (get s.parser parsers)) invalid >> validate_source_type allow s

  unfoldable pub validate_sources :
      List Bytes → List (Bytes × ParserConfig V) → List (Bytes × SourceConfig) → Checked
  validate_sources allow parsers [] = ok tt
  validate_sources allow parsers ((name, s) ∷ ss) =
      validate_source allow parsers s >> validate_sources allow parsers ss

-- A file that is there and regular.
unfoldable pub is_regular_file : Option FileInfo → Bool
is_regular_file none = false
is_regular_file (some info) = is_regular info.kind

-- The checks of the key and the certificates.
unfoldable pub validate_files : FileSystem → TransportConfig → Checked
validate_files fs t =
    require (check_key_mode fs.euid (fs.lstat t.client_key)) insecure
    >> require (is_regular_file (fs.stat t.client_cert)) invalid
    >> require (is_regular_file (fs.stat t.ca_cert)) invalid

unfoldable pub is_secure_broker : Bytes → Bool
is_secure_broker url =
    has_prefix url (bytes "tls://")
    || (has_prefix url (bytes "ssl://") || has_prefix url (bytes "mqtts://"))

unfoldable pub validate_pin : Bytes → Checked
validate_pin pin = if equal pin [] then ok tt else require (accepts (parse_pin pin)) insecure

-- `validateTransport`.
unfoldable pub validate_transport : FileSystem → Bool → TransportConfig → Checked
validate_transport fs skip t =
    require (not (equal t.mqtt_broker [])) invalid
    >> require (is_secure_broker t.mqtt_broker) insecure
    >> require (not (equal t.client_cert [] || (equal t.client_key [] || equal t.ca_cert [])))
        insecure
    >> require (accepts (canonicalize_path t.client_cert)) insecure
    >> require (accepts (canonicalize_path t.client_key)) insecure
    >> require (accepts (canonicalize_path t.ca_cert)) insecure
    >> require (not (ltb 2 t.qos_logs || ltb 2 t.qos_heartbeat)) invalid
    >> (if skip then ok tt else validate_files fs t)
    >> validate_pin t.broker_cert_pin

-- `Validate`, with the names of the registered parsers.
unfoldable pub validate : {V : Type 0} → FileSystem → Bool → List Bytes → Config V → Checked
validate fs skip known c =
    validate_daemon fs skip (allowlist c) c.daemon
    >> validate_parsers known c.parsers
    >> validate_sources (allowlist c) c.parsers c.sources
    >> validate_transport fs skip c.transport

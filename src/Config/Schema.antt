-- ===== src/Config/Schema.antt =====
-- internal/config/config.go: the schema. `V` is the type of the values that the TOML decoder gives
-- for the free-form options of a parser. A time.Duration is its number of nanoseconds.
use blackboxd.Prelude.{ℕ, Bool, List, [], ◌∷◌, ◌&&◌, ◌||◌, leb, ◌==◌, length, true}
use blackboxd.Prelude.Int.{ℤ}
use blackboxd.Bytes.{Bytes, bytes}

pub record DaemonConfig : Type 0 where
  pub device_id : Bytes
  pub tenant : Bytes
  pub state_dir : Bytes
  pub log_level : Bytes

pub record SourceConfig : Type 0 where
  pub type : Bytes
  pub parser : Bytes
  pub path : Bytes
  pub from_beginning : Bool
  pub follow_rotation : Bool
  pub follow_symlinks : Bool
  pub units : List Bytes
  pub min_priority : ℤ

pub record ParserConfig (V : Type 0) : Type 0 where
  pub type : Bytes
  pub options : List (Bytes × V)

-- The two QoS fields are `uint8`.
pub record TransportConfig : Type 0 where
  pub mqtt_broker : Bytes
  pub client_cert : Bytes
  pub client_key : Bytes
  pub ca_cert : Bytes
  pub broker_cert_pin : Bytes
  pub qos_logs : ℕ
  pub qos_heartbeat : ℕ
  pub heartbeat_interval : ℤ

pub record BufferConfig : Type 0 where
  pub max_entries : ℤ
  pub max_bytes : ℤ
  pub batch_size : ℤ
  pub batch_interval : ℤ
  pub max_line_bytes : ℤ

pub record SpoolConfig : Type 0 where
  pub max_size_bytes : ℤ

pub record RateLimitConfig : Type 0 where
  pub per_source_lines_per_sec : ℤ

pub record ShutdownConfig : Type 0 where
  pub timeout : ℤ

pub record Config (V : Type 0) : Type 0 where
  pub daemon : DaemonConfig
  pub sources : List (Bytes × SourceConfig)
  pub parsers : List (Bytes × ParserConfig V)
  pub transport : TransportConfig
  pub buffer : BufferConfig
  pub spool : SpoolConfig
  pub rate_limit : RateLimitConfig
  pub shutdown : ShutdownConfig
  pub allowed_path_prefixes : List Bytes

-- A byte of `[A-Za-z0-9_-]`.
unfoldable pub is_id_byte : ℕ → Bool
is_id_byte c =
    (leb b'A' c && leb c b'Z')
    || ((leb b'a' c && leb c b'z') || ((leb b'0' c && leb c b'9') || ((c == b'_') || (c == b'-'))))

unfoldable pub all_id_bytes : Bytes → Bool
all_id_bytes [] = true
all_id_bytes (c ∷ cs) = is_id_byte c && all_id_bytes cs

-- `IDPattern.MatchString`.
unfoldable pub id_pattern : Bytes → Bool
id_pattern s = leb 1 (length s) && (leb (length s) 64 && all_id_bytes s)

-- `DefaultAllowedPrefixes` of internal/security/paths.go.
abbrev pub default_allowed_prefixes : List Bytes
default_allowed_prefixes =
    bytes "/var/log"
    ∷ bytes "/var/log/journal"
    ∷ bytes "/var/lib/blackboxd"
    ∷ bytes "/dev/kmsg"
    ∷ bytes "/run/log/journal"
    ∷ []

unfoldable pub prefixes_or_default : List Bytes → List Bytes
prefixes_or_default [] = default_allowed_prefixes
prefixes_or_default (p ∷ ps) = p ∷ ps

-- `allowlist`.
unfoldable pub allowlist : {V : Type 0} → Config V → List Bytes
allowlist c = prefixes_or_default c.allowed_path_prefixes

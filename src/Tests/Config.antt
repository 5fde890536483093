-- ===== src/Tests/Config.antt =====
-- The configuration of internal/config at a fixed input.
use blackboxd.Prelude.{
  ℕ, ◌≡◌, ◌↔◌, refl, true, false, List, [], ◌∷◌, Option, some, Result, ok, if◌then◌else◌,
}
use blackboxd.Prelude.Int.{pos}
use blackboxd.Bytes.{Bytes, bytes, equal}
use blackboxd.Bytes.Maps.{keys}
use blackboxd.Bytes.Sorted.{sorted_names, insert_name, bytes_ltb}
use blackboxd.Security.Modes.{FileInfo, regular, directory}
use blackboxd.Parser.Registry.{registered_names}
use blackboxd.Config.Schema.{Config}
use blackboxd.Config.Defaults.{apply_defaults}
use blackboxd.Config.Validate.{FileSystem, validate}
use blackboxd.Config.Validate.Accepted.{IsSafe, validate_iff}
use blackboxd.Config.Load.{Decoder}

-- What stands in the file: one file source with a syslog parser.
abbrev written : Config Bytes
written = record {
  daemon = record {
    device_id = bytes "dev-1";
    tenant = bytes "acme";
    state_dir = bytes "/var/lib/blackboxd";
    log_level = [];
  };
  sources =
      (
        bytes "messages",
        record {
          type = bytes "file";
          parser = bytes "bsd";
          path = bytes "/var/log/messages";
          from_beginning = false;
          follow_rotation = true;
          follow_symlinks = false;
          units = [];
          min_priority = pos 0;
        },
      )
      ∷ [];
  parsers = (bytes "bsd", record { type = bytes "syslog_bsd"; options = [] }) ∷ [];
  transport = record {
    mqtt_broker = bytes "tls://broker:8883";
    client_cert = bytes "/etc/b/c.pem";
    client_key = bytes "/etc/b/k.pem";
    ca_cert = bytes "/etc/b/ca.pem";
    broker_cert_pin = [];
    qos_logs = 0;
    qos_heartbeat = 0;
    heartbeat_interval = pos 0;
  };
  buffer = record {
    max_entries = pos 0;
    max_bytes = pos 0;
    batch_size = pos 0;
    batch_interval = pos 0;
    max_line_bytes = pos 0;
  };
  spool = record { max_size_bytes = pos 0 };
  rate_limit = record { per_source_lines_per_sec = pos 0 };
  shutdown = record { timeout = pos 0 };
  allowed_path_prefixes = [];
}

abbrev decoder : Decoder Bytes
decoder = record {
  decode = λ text. some (written, []);
  decode_parsers = λ text. some ((bytes "bsd", (bytes "type", bytes "syslog_bsd") ∷ []) ∷ []);
  as_string = λ v. some v;
}

abbrev file_info : Bytes → Option FileInfo
file_info p =
    if equal p (bytes "/var/lib/blackboxd")
    then some (record { kind = directory; perm = 448; owner = some 7 })
    else some (record { kind = regular; perm = 384; owner = some 7 })

abbrev file_system : FileSystem
file_system = record { lstat = file_info; stat = file_info; euid = 7 }

abbrev factories : List (Bytes × (List (Bytes × Bytes) → Result ℕ ℕ))
factories = (bytes "syslog_bsd", λ opts. ok 3) ∷ (bytes "kmsg", λ opts. ok 1) ∷ []

abbrev path : Bytes
path = bytes "/etc/blackboxd.toml"

abbrev known : List Bytes
known = bytes "kmsg" ∷ bytes "syslog_bsd" ∷ []

known_test : registered_names factories ≡ known
unfolding registered_names keys sorted_names insert_name bytes_ltb
known_test = refl

validate_iff_example :
    (validate file_system false known (apply_defaults written) ≡ ok tt)
    ↔ IsSafe Bytes file_system false known (apply_defaults written)
validate_iff_example = validate_iff file_system false known (apply_defaults written)

-- ===== src/Config/Defaults.antt =====
-- internal/config/load.go: `applyDefaults`.
use blackboxd.Prelude.{ℕ, ◌*◌, ◌≡◌, if◌then◌else◌, [], ◌==◌, arith}
use blackboxd.Prelude.Int.{ℤ, pos, negsuc, eqb_ℤ}
use blackboxd.Bytes.{bytes, equal}
use blackboxd.Config.Schema.{Config, DaemonConfig, BufferConfig, TransportConfig}

-- `if x == 0 { x = d }`, for the fields of signed type.
unfoldable pub default_if_zero : ℕ → ℤ → ℤ
default_if_zero d x = if eqb_ℤ x (pos 0) then pos d else x

unfoldable pub daemon_defaults : DaemonConfig → DaemonConfig
daemon_defaults d = if equal d.log_level [] then record d { log_level = bytes "info" } else d

unfoldable pub buffer_defaults : BufferConfig → BufferConfig
buffer_defaults b = record {
  max_entries = default_if_zero 10000 b.max_entries;
  max_bytes = default_if_zero (4 * 1024 * 1024) b.max_bytes;
  batch_size = default_if_zero 100 b.batch_size;
  batch_interval = default_if_zero (5 * 1000000000) b.batch_interval;
  max_line_bytes = default_if_zero (64 * 1024) b.max_line_bytes;
}

unfoldable pub transport_defaults : TransportConfig → TransportConfig
transport_defaults t = record t { qos_logs = if t.qos_logs == 0 then 1 else t.qos_logs }

-- `applyDefaults`.
unfoldable pub apply_defaults : {V : Type 0} → Config V → Config V
apply_defaults c = record c {
  daemon = daemon_defaults c.daemon;
  buffer = buffer_defaults c.buffer;
  spool = record { max_size_bytes = default_if_zero (100 * 1024 * 1024) c.spool.max_size_bytes };
  rate_limit = record {
    per_source_lines_per_sec = default_if_zero 10000 c.rate_limit.per_source_lines_per_sec;
  };
  shutdown = record { timeout = default_if_zero (10 * 1000000000) c.shutdown.timeout };
  transport = transport_defaults c.transport;
}

default_if_zero-default_if_zero :
    (d : ℕ) (x : ℤ) → default_if_zero d (default_if_zero d x) ≡ default_if_zero d x
unfolding default_if_zero
default_if_zero-default_if_zero d (pos n) = ground arith
default_if_zero-default_if_zero d (negsuc n) = ground arith

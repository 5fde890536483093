-- ===== src/Config/Load/Loaded.antt =====
-- What `Load` returns.
use blackboxd.Prelude.{
  ℕ, ◌*◌, ◌<◌, ◌≤◌, ◌≡◌, ◌≢◌, refl, ◌⊎◌, inl, inr, Bool, true, false, ◌||◌, List, Option, none,
  some, ok, bind-eq-ok, require, require_iff, arith, subst,
}
use blackboxd.Prelude.Int.{ℤ, pos, negsuc}
use blackboxd.Bytes.{Bytes}
use blackboxd.Security.Modes.{FileInfo, regular, check_config_mode, others_write}
use blackboxd.Security.Modes.Owned.{is_regular_iff}
use blackboxd.Config.Schema.{Config}
use blackboxd.Config.Defaults.{default_if_zero, apply_defaults, buffer_defaults, transport_defaults}
use blackboxd.Config.Validate.{FileSystem, validate, insecure, invalid}
use blackboxd.Config.Validate.Accepted.{IsSafe, validate_iff}
use blackboxd.Config.Load.{Decoder, finish, parse, load, unknown_keys, is_empty, or_invalid}

-- No setting that has a default is zero.
pub record IsFilled (V : Type 0) (c : Config V) : Type 0 where
  pub max_entries : c.buffer.max_entries ≢ pos 0
  pub max_bytes : c.buffer.max_bytes ≢ pos 0
  pub batch_size : c.buffer.batch_size ≢ pos 0
  pub batch_interval : c.buffer.batch_interval ≢ pos 0
  pub max_line_bytes : c.buffer.max_line_bytes ≢ pos 0
  pub max_size_bytes : c.spool.max_size_bytes ≢ pos 0
  pub lines_per_sec : c.rate_limit.per_source_lines_per_sec ≢ pos 0
  pub timeout : c.shutdown.timeout ≢ pos 0
  pub qos_logs : 1 ≤ c.transport.qos_logs

-- A regular file that neither its group nor others may write.
abbrev pub IsConfigFile : Option FileInfo → Type 0
IsConfigFile found =
    (info : FileInfo) × (found ≡ some info)
    × (info.kind ≡ regular)
    × (others_write info.perm ≡ false)

default_if_zero-ne : (d : ℕ) (x : ℤ) → 0 < d → default_if_zero d x ≢ pos 0
unfolding default_if_zero
default_if_zero-ne d (pos n) h = ground arith
default_if_zero-ne d (negsuc n) h = ground arith

apply_defaults-IsFilled : {V : Type 0} (c : Config V) → IsFilled V (apply_defaults c)
unfolding apply_defaults buffer_defaults transport_defaults
apply_defaults-IsFilled c = record {
  max_entries = default_if_zero-ne 10000 c.buffer.max_entries (omega arith);
  max_bytes = default_if_zero-ne (4 * 1024 * 1024) c.buffer.max_bytes (omega arith);
  batch_size = default_if_zero-ne 100 c.buffer.batch_size (omega arith);
  batch_interval = default_if_zero-ne (5 * 1000000000) c.buffer.batch_interval (omega arith);
  max_line_bytes = default_if_zero-ne (64 * 1024) c.buffer.max_line_bytes (omega arith);
  max_size_bytes = default_if_zero-ne (100 * 1024 * 1024) c.spool.max_size_bytes (omega arith);
  lines_per_sec = default_if_zero-ne 10000 c.rate_limit.per_source_lines_per_sec (omega arith);
  timeout = default_if_zero-ne (10 * 1000000000) c.shutdown.timeout (omega arith);
  qos_logs = ground arith;
}

-- A configuration that was loaded.
pub record IsLoaded (V : Type 0) (fs : FileSystem) (skip : Bool) (known : List Bytes) (path : Bytes)
    (c : Config V) : Type 0 where
  pub file : (skip ≡ true) ⊎ IsConfigFile (fs.lstat path)
  pub safe : IsSafe V fs skip known c
  pub filled : IsFilled V c

config_mode_lem : (found : Option FileInfo) → check_config_mode found ≡ true → IsConfigFile found
unfolding check_config_mode
config_mode_lem none h = absurd (cc)
config_mode_lem (some info) h =
    (info, refl, (is_regular_iff info.kind).0 (ground (arith, h)), ground (arith, h))

file_lem :
    (skip : Bool) (found : Option FileInfo)
    → require (skip || check_config_mode found) insecure ≡ ok tt
    → (skip ≡ true) ⊎ IsConfigFile found
file_lem true found h = inl refl
file_lem false found h = inr (config_mode_lem found ((require_iff _ insecure).0 h))

module _ {V : Type 0} (toml : Decoder V) (fs : FileSystem) (skip : Bool) (known : List Bytes) where
  finish_lem :
      (c c' : Config V)
      → finish toml fs skip known c ≡ ok c'
      → IsSafe V fs skip known c' × IsFilled V c'
  unfolding finish
  finish_lem c c' h =
      let (u, valid, e) =
        bind-eq-ok (validate fs skip known (apply_defaults c)) (λ u. ok (apply_defaults c)) h in
      let same : apply_defaults c ≡ c' = cc in
      subst (λ x. IsSafe V fs skip known x × IsFilled V x) same
        ((validate_iff fs skip known (apply_defaults c)).0 valid, apply_defaults-IsFilled c)

  parse_lem :
      (text : Bytes) (c : Config V)
      → parse toml fs skip known text ≡ ok c
      → IsSafe V fs skip known c × IsFilled V c
  unfolding parse
  parse_lem text c h =
      let (decoded, e, h₁) = bind-eq-ok (or_invalid (toml.decode text)) _ h in
      let (u, f, h₂) = bind-eq-ok (require (is_empty (unknown_keys decoded.1)) invalid) _ h₁ in
      let (raw, g, h₃) = bind-eq-ok (or_invalid (toml.decode_parsers text)) _ h₂ in
      finish_lem _ c h₃

  pub load-IsLoaded :
      (read_file : Bytes → Option Bytes) (path : Bytes) (c : Config V)
      → load toml fs read_file skip known path ≡ ok c
      → IsLoaded V fs skip known path c
  unfolding load
  load-IsLoaded read_file path c h =
      let (u, mode, h₁) =
        bind-eq-ok (require (skip || check_config_mode (fs.lstat path)) insecure) _ h in
      let (text, e, h₂) = bind-eq-ok (or_invalid (read_file path)) _ h₁ in
      let (safe, filled) = parse_lem text c h₂ in
      record { file = file_lem skip (fs.lstat path) mode; safe = safe; filled = filled }

-- ===== src/Source/File/Settings.antt =====
-- internal/source/file.go: `NewFileSource`.
use blackboxd.Prelude.{ℕ, zero, suc, Bool, ◌||◌, [], Option, none, some, if◌then◌else◌}
use blackboxd.Prelude.Int.{ℤ, pos, negsuc}
use blackboxd.Bytes.{Bytes, equal}
use blackboxd.Source.File.{FileConfig, max_line_of_config}

-- `FileSourceConfig` as it is given; an interval is in nanoseconds.
pub record FileSourceConfig : Type 0 where
  pub config_name : Bytes
  pub config_path : Bytes
  pub has_parser : Bool
  pub beginning : Bool
  pub symlinks : Bool
  pub max_line_bytes : ℤ
  pub poll_interval : ℤ
  pub save_interval : ℤ
  pub has_offsets : Bool

-- An interval that is not positive is replaced.
unfoldable pub positive_or : ℕ → ℤ → ℕ
positive_or d (pos zero) = d
positive_or d (pos (suc n)) = suc n
positive_or d (negsuc n) = d

-- What `NewFileSource` makes: the settings of the reading, and the two intervals.
unfoldable pub new_file_source : FileSourceConfig → Option (FileConfig × ℕ × ℕ)
new_file_source cfg =
    if equal cfg.config_name [] || equal cfg.config_path []
    then none
    else if cfg.has_parser
    then some (
      record {
        name = cfg.config_name;
        path = cfg.config_path;
        from_beginning = cfg.beginning;
        follow_symlinks = cfg.symlinks;
        max_line = max_line_of_config cfg.max_line_bytes;
        offsets = cfg.has_offsets;
      },
      positive_or 250000000 cfg.poll_interval,
      positive_or 1000000000 cfg.save_interval,
    )
    else none

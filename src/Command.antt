-- ===== src/Command.antt =====
-- cmd/blackboxd: `dispatch` and the commands of main.go, with flags.go. The package flag is an
-- argument: what `Parse` makes of the arguments of each command. What is printed is left out, and so
-- are the signals that the service waits for.
pub mod Exits
use blackboxd.Prelude.{
  ℕ, Bool, true, false, ◌||◌, List, [], ◌∷◌, ◌++◌, Option, none, some, Result, ok, err,
  if◌then◌else◌,
}
use blackboxd.Bytes.{Bytes, bytes, equal}
use blackboxd.Entry.{LogEntry}
use blackboxd.Config.Schema.{Config}
use blackboxd.Config.Validate.{FileSystem, ConfigError}
use blackboxd.Config.Load.{Decoder, load}
use blackboxd.Oneshot.Closing.{Output, open_output}
use blackboxd.Oneshot.Dump.{
  ExitCode, exit_ok, exit_usage, exit_config_invalid, exit_runtime_failure, DumpFlags, Clock,
  Parsers, System, run_dump,
}

-- `multiStringValue`: a flag that is given several times, and its `String`.
unfoldable pub set_value : Bytes → List Bytes → List Bytes
set_value s m = m ++ (s ∷ [])

unfoldable pub join_values : List Bytes → Bytes
join_values [] = []
join_values (s ∷ []) = s
join_values (s ∷ t ∷ m) = s ++ (b',' ∷ join_values (t ∷ m))

-- The flags of `validate` with the arguments behind them, and those of `dump`.
pub record ValidateArgs : Type 0 where
  pub skip_fs_checks : Bool
  pub args : List Bytes

pub record DumpArgs : Type 0 where
  pub flags : DumpFlags
  pub output : Bytes
  pub output_short : Bytes
  pub gzip : Bool

-- `flag.Parse` for the three commands that have flags; `none` is its error.
pub record Flags : Type 0 where
  pub parse_service : List Bytes → Option Bytes
  pub parse_dump : List Bytes → Option DumpArgs
  pub parse_validate : List Bytes → Option ValidateArgs

-- What the commands work on.
pub record Host (V : Type 0) : Type 0 where
  pub toml : Decoder V
  pub fs : FileSystem
  pub read_file : Bytes → Option Bytes
  pub known : List Bytes
  pub clock : Clock
  pub parsers : Parsers
  pub system : System
  pub opens : Bytes → Bool
  pub valid_string : Bytes → Bool
  pub to_valid_utf8 : Bytes → Bytes

-- The numbers of the exit codes.
unfoldable pub exit_number : ExitCode → ℕ
exit_number exit_ok = 0
exit_number exit_usage = 2
exit_number exit_config_invalid = 3
exit_number exit_runtime_failure = 4

-- `runService`: the service is not wired yet.
unfoldable pub run_service : Option Bytes → ExitCode
run_service none = exit_usage
run_service (some config_path) = exit_runtime_failure

-- The output's path: `--output`, or else `-o`.
unfoldable pub output_path : DumpArgs → Bytes
output_path a = if equal a.output [] then a.output_short else a.output

abbrev pub is_opened : Option Output → Bool
is_opened none = false
is_opened (some out) = true

module _ {V : Type 0} (host : Host V) where
  -- `runDump` from its flags on: the entries that it writes, and its exit code.
  unfoldable pub run_dump_args : Option DumpArgs → List LogEntry × ExitCode
  run_dump_args none = ([], exit_usage)
  run_dump_args (some a) =
      run_dump host.valid_string host.to_valid_utf8 host.clock host.parsers
        (record (host.system) {
          output_opens = is_opened (open_output host.opens (output_path a) a.gzip);
        })
        a.flags

  -- What `config.Load` comes to.
  unfoldable pub exit_of_load : Result ConfigError (Config V) → ExitCode
  exit_of_load (ok c) = exit_ok
  exit_of_load (err e) = exit_config_invalid

  unfoldable pub validate_args : Bool → List Bytes → ExitCode
  validate_args skip [] = exit_usage
  validate_args skip (path ∷ []) =
      exit_of_load (load host.toml host.fs host.read_file skip host.known path)
  validate_args skip (path ∷ more ∷ args) = exit_usage

  -- `runValidate`.
  unfoldable pub run_validate : Option ValidateArgs → ExitCode
  run_validate none = exit_usage
  run_validate (some a) = validate_args a.skip_fs_checks a.args

  -- `dispatch` on the arguments behind the program's name: the entries that a dump writes, and the
  -- exit code. `runVersion` and the help print and succeed.
  unfoldable pub dispatch : Flags → List Bytes → List LogEntry × ExitCode
  dispatch flags [] = ([], run_service (flags.parse_service []))
  dispatch flags (command ∷ args) =
      if equal command (bytes "dump")
      then run_dump_args (flags.parse_dump args)
      else if equal command (bytes "validate")
      then ([], run_validate (flags.parse_validate args))
      else if equal command (bytes "version")
      then ([], exit_ok)
      else if equal command (bytes "help")
          || (equal command (bytes "-h") || equal command (bytes "--help"))
      then ([], exit_ok)
      else ([], run_service (flags.parse_service (command ∷ args)))

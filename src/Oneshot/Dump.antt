-- ===== src/Oneshot/Dump.antt =====
-- cmd/blackboxd: `runDump` of main.go and what it calls of dump.go. The time package, the parsers
-- that are made, the file system and the commands are arguments.
pub mod Bounds
pub mod Output
use blackboxd.Prelude.{
  ℕ, Bool, true, false, not, ◌||◌, List, [], ◌∷◌, ◌++◌, Option, none, some, Result, ok, err,
  if◌then◌else◌, ◌>>=◌,
}
use blackboxd.Prelude.Int.{ℤ, pos, ◌+ℤ◌, neg_ℤ, eqb_ℤ}
use blackboxd.Bytes.{Bytes, bytes, equal}
use blackboxd.Entry.{Time, LogEntry, ParseError, zero_time}
use blackboxd.Oneshot.Merge.{Filter, MergeOptions, merge}
use blackboxd.Oneshot.Sources.{JournalSource, DmesgRun, read_file, read_journal, read_dmesg}

abbrev pub Parser : Type 0
Parser = Bytes → Result ParseError LogEntry

-- `exitCode`.
pub data ExitCode : Type 0 where
  exit_ok exit_usage exit_config_invalid exit_runtime_failure : ExitCode

-- The flags of `dump`, after they are parsed.
pub record DumpFlags : Type 0 where
  pub kmsg : Bool
  pub dmesg : Bool
  pub journal : Bool
  pub journal_units : List Bytes
  pub bsd_files : List Bytes
  pub rfc5424_files : List Bytes
  pub since : Bytes
  pub until : Bytes
  pub max_lines : ℤ

-- `time.ParseDuration`, `time.Parse` and `Format` at RFC 3339, and `time.Now`.
pub record Clock : Type 0 where
  pub parse_duration : Bytes → Option ℤ
  pub parse_rfc3339 : Bytes → Option Time
  pub format_rfc3339 : Time → Bytes
  pub now : Time

-- The parsers, `none` for a constructor that returns an error.
pub record Parsers : Type 0 where
  pub syslog_bsd : Option Parser
  pub syslog_rfc5424 : Option Parser
  pub kmsg : Option Parser
  pub dmesg : Option Parser
  pub journald : Option Parser

-- The sources that `buildOneshotSources` makes.
pub data DumpSource : Type 0 where
  file_source : Bytes → Bytes → Parser → DumpSource
  dmesg_source : Parser → DumpSource
  journal_source : JournalSource → Parser → DumpSource

abbrev pub Usage : Type 0 → Type 0
Usage A = Result ExitCode A

unfoldable pub since_bound : Clock → Bytes → Usage Time
since_bound clock s = if equal s [] then ok zero_time else elim (clock.parse_duration s) [
  | some d ↦ ok (clock.now +ℤ neg_ℤ d)
  | none ↦ elim (clock.parse_rfc3339 s) [ some t ↦ ok t | none ↦ err exit_usage ]
]

unfoldable pub until_bound : Clock → Bytes → Usage Time
until_bound clock s =
    if equal s []
    then ok zero_time
    else elim (clock.parse_rfc3339 s) [ some t ↦ ok t | none ↦ err exit_usage ]

-- `buildOneshotFilter`.
unfoldable pub build_oneshot_filter : Clock → Bytes → Bytes → Usage Filter
build_oneshot_filter clock since until = do
  s ← since_bound clock since
  u ← until_bound clock until
  ok (record { since = s; until = u })

-- A parser, made for each source that has it.
unfoldable pub made : Option Parser → Usage Parser
made none = err exit_usage
made (some p) = ok p

unfoldable pub file_sources : Bytes → Option Parser → List Bytes → Usage (List DumpSource)
file_sources prefix p [] = ok []
file_sources prefix p (path ∷ paths) = do
  parser ← made p
  rest ← file_sources prefix p paths
  ok (file_source (prefix ++ path) path parser ∷ rest)

unfoldable pub kmsg_sources : Bool → Option Parser → Usage (List DumpSource)
kmsg_sources false p = ok []
kmsg_sources true p =
    made p >>= λ parser. ok (file_source (bytes "kmsg") (bytes "/dev/kmsg") parser ∷ [])

unfoldable pub dmesg_sources : Bool → Option Parser → Usage (List DumpSource)
dmesg_sources false p = ok []
dmesg_sources true p = made p >>= λ parser. ok (dmesg_source parser ∷ [])

abbrev pub time_arg : Clock → Time → Bytes
time_arg clock t = if eqb_ℤ t zero_time then [] else clock.format_rfc3339 t

unfoldable pub journal_sources :
    Clock → Bool → List Bytes → Filter → Option Parser → Usage (List DumpSource)
journal_sources clock false units f p = ok []
journal_sources clock true units f p = made p >>= λ parser. ok (
    journal_source
      (record {
        label = bytes "journal";
        path = [];
        units = units;
        priority = pos 0;
        since = time_arg clock f.since;
        until = time_arg clock f.until;
      })
      parser
    ∷ [])

abbrev pub is_some_unit : List Bytes → Bool
is_some_unit [] = false
is_some_unit (u ∷ us) = true

-- `buildOneshotSources`.
unfoldable pub build_oneshot_sources :
    Clock → Parsers → DumpFlags → Filter → Usage (List DumpSource)
build_oneshot_sources clock ps flags f = do
  bsd ← file_sources (bytes "syslog_bsd:") ps.syslog_bsd flags.bsd_files
  rfc ← file_sources (bytes "syslog_rfc5424:") ps.syslog_rfc5424 flags.rfc5424_files
  kmsg ← kmsg_sources flags.kmsg ps.kmsg
  dmesg ← dmesg_sources flags.dmesg ps.dmesg
  journal ←
      journal_sources clock (flags.journal || is_some_unit flags.journal_units) flags.journal_units
        f ps.journald
  ok (bsd ++ (rfc ++ (kmsg ++ (dmesg ++ journal))))

-- What the system gives: the bytes of a file that opens, the output of journalctl, a run of dmesg,
-- whether the output can be opened, and which writes to it fail.
pub record System : Type 0 where
  pub open_file : Bytes → Option Bytes
  pub capture : List Bytes → Option Bytes
  pub dmesg : Option DmesgRun
  pub output_opens : Bool
  pub write_fails : ℕ → Bool

module _ (valid_string : Bytes → Bool) (to_valid_utf8 : Bytes → Bytes) where
  unfoldable pub read_of : System → DumpSource → Filter → Option (List LogEntry)
  read_of sys (file_source label path parser) =
      read_file parser valid_string to_valid_utf8 label path (sys.open_file path)
  read_of sys (dmesg_source parser) = read_dmesg parser valid_string to_valid_utf8 sys.dmesg
  read_of sys (journal_source j parser) =
      read_journal parser valid_string to_valid_utf8 sys.capture j

  unfoldable pub reads_of : System → List DumpSource → List (Filter → Option (List LogEntry))
  reads_of sys [] = []
  reads_of sys (s ∷ ss) = read_of sys s ∷ reads_of sys ss

  -- The part of `runDump` that has sources.
  unfoldable pub dump_sources : System → ℤ → Filter → List DumpSource → List LogEntry × ExitCode
  dump_sources sys max_lines f [] = ([], exit_usage)
  dump_sources sys max_lines f (s ∷ ss) =
      let (out, good) =
        merge sys.write_fails (reads_of sys (s ∷ ss))
          (record { max_lines = max_lines; filter = f }) in
      if sys.output_opens
      then (out, if good then exit_ok else exit_runtime_failure)
      else ([], exit_runtime_failure)

  -- `runDump`, after the flags are parsed: the entries that are written, and the exit code.
  unfoldable pub run_dump : Clock → Parsers → System → DumpFlags → List LogEntry × ExitCode
  run_dump clock ps sys flags = elim (build_oneshot_filter clock flags.since flags.until) [
    | err e ↦ ([], e)
    | ok f ↦ elim (build_oneshot_sources clock ps flags f) [
      | err e ↦ ([], e)
      | ok sources ↦ dump_sources sys flags.max_lines f sources
    ]
  ]

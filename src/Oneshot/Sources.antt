-- ===== src/Oneshot/Sources.antt =====
-- internal/oneshot/sources.go: the sources of the one-shot mode, with `RunDmesg` of
-- internal/source/dmesg.go. What a file holds up to its end or a failed read, and what a command
-- writes, is an argument.
pub mod Filtered
use blackboxd.Prelude.{
  ℕ, Bool, true, false, ◌&&◌, List, [], ◌∷◌, ◌++◌, Option, none, some, Result, ok, err,
  if◌then◌else◌,
}
use blackboxd.Prelude.Int.{ℤ, pos, ltb_ℤ, pos_part, eqb_ℤ}
use blackboxd.Bytes.{Bytes, bytes, equal}
use blackboxd.Bytes.Text.{reads, split_blank, trim_space}
use blackboxd.Entry.{LogEntry, ParseError, zero_time}
use blackboxd.Source.File.{sanitize_utf8}
use blackboxd.Source.Journal.{unit_args, priority_args, directory_args}
use blackboxd.Oneshot.Merge.{Filter, passes}

-- `FileSource.Name` and `JournalSource.Name`: the label, or what stands for one.
unfoldable pub name_or : Bytes → Bytes → Bytes
name_or label other = if equal label [] then other else label

-- `JournalSource`, but for its parser.
pub record JournalSource : Type 0 where
  pub label : Bytes
  pub path : Bytes
  pub units : List Bytes
  pub priority : ℤ
  pub since : Bytes
  pub until : Bytes

-- An option with its value, if that is not empty.
unfoldable pub option_args : Bytes → Bytes → List Bytes
option_args option v = if equal v [] then [] else option ∷ v ∷ []

-- The arguments that `JournalSource.Read` gives to journalctl.
unfoldable pub journal_args : JournalSource → List Bytes
journal_args j =
    bytes "-o"
    ∷ bytes "export"
    ∷ bytes "--no-pager"
    ∷ (directory_args j.path
        ++ (unit_args j.units
            ++ (priority_args j.priority
                ++ (option_args (bytes "--since") j.since
                    ++ option_args (bytes "--until") j.until))))

-- The last line of a file, if it has no newline.
abbrev pub last_line : Bytes → List Bytes
last_line [] = []
last_line (c ∷ tail) = (c ∷ tail) ∷ []

unfoldable pub all_lines : Bytes → List Bytes
all_lines text = let (ls, tail) = reads text in ls ++ last_line tail

-- The pieces of an export that are not empty when they are trimmed.
unfoldable pub trimmed_records : List Bytes → List Bytes
trimmed_records [] = []
trimmed_records (r ∷ rs) =
    let t = trim_space r in
    let later = trimmed_records rs in if equal t [] then later else t ∷ later

-- What dmesg writes, whether a read of it fails, and whether it exits with success.
pub record DmesgRun : Type 0 where
  pub output : Bytes
  pub broken : Bool
  pub success : Bool

-- The filtering of `DmesgSource.Read`.
unfoldable pub passing : Filter → List LogEntry → List LogEntry
passing f [] = []
passing f (e ∷ es) = let later = passing f es in if passes f e.timestamp then e ∷ later else later

module _ (parser : Bytes → Result ParseError LogEntry) (valid_string : Bytes → Bool)
    (to_valid_utf8 : Bytes → Bytes) where
  -- An entry with its source's name, and its message repaired.
  unfoldable pub named : Bytes → LogEntry → LogEntry
  named name e = sanitize_utf8 parser valid_string to_valid_utf8 (record e { source = name })

  -- The entry of a line or a record, if it can be parsed and passes the filter.
  unfoldable pub kept_entry : Filter → Bytes → Bytes → List LogEntry
  kept_entry f name text = elim (parser text) [
    | err e ↦ []
    | ok e ↦ if passes f e.timestamp then named name e ∷ [] else []
  ]

  unfoldable pub kept_entries : Filter → Bytes → List Bytes → List LogEntry
  kept_entries f name [] = []
  kept_entries f name (t ∷ ts) = kept_entry f name t ++ kept_entries f name ts

  -- `FileSource.Read`; `none` for a file that `os.Open` does not open.
  unfoldable pub read_file : Bytes → Bytes → Option Bytes → Filter → Option (List LogEntry)
  read_file label path none f = none
  read_file label path (some text) f = some (kept_entries f (name_or label path) (all_lines text))

  -- `JournalSource.Read`, for what `captureCommand` returns of journalctl with its arguments.
  unfoldable pub read_journal :
      (List Bytes → Option Bytes) → JournalSource → Filter → Option (List LogEntry)
  read_journal capture j f = elim (capture (journal_args j)) [
    | none ↦ none
    | some out ↦
        some
          (kept_entries f (name_or j.label (bytes "journal")) (trimmed_records (split_blank out)))
  ]

  -- The entries of `RunDmesg`.
  unfoldable pub dmesg_entry : Bytes → List LogEntry
  dmesg_entry line = elim (parser line) [ err e ↦ [] | ok e ↦ named (bytes "dmesg") e ∷ [] ]

  unfoldable pub dmesg_entries : List Bytes → List LogEntry
  dmesg_entries [] = []
  dmesg_entries (l ∷ ls) = dmesg_entry l ++ dmesg_entries ls

  -- `RunDmesg`: its entries, and whether it returns no error; `none` for a command that does not
  -- start.
  unfoldable pub run_dmesg : Option DmesgRun → List LogEntry × Bool
  run_dmesg none = ([], false)
  run_dmesg (some r) =
      if r.broken then ([], false) else (dmesg_entries (all_lines r.output), r.success)

  -- `DmesgSource.Read`.
  unfoldable pub read_dmesg : Option DmesgRun → Filter → Option (List LogEntry)
  read_dmesg run f =
      let (entries, good) = run_dmesg run in
      if good
      then (if eqb_ℤ f.since zero_time && eqb_ℤ f.until zero_time
          then some entries
          else some (passing f entries))
      else none

-- ===== src/Source/Journal.antt =====
-- internal/source/journal.go: `JournalSource`, which reads the records that `journalctl -o export`
-- writes. What the process writes, and how it ends, is an argument.
pub mod Records
use blackboxd.Prelude.{
  ℕ, zero, suc, Bool, true, false, ◌||◌, List, [], ◌∷◌, ◌++◌, Option, none, some, Result, ok, err,
  if◌then◌else◌,
}
use blackboxd.Prelude.Int.{ℤ, pos, ltb_ℤ, pos_part}
use blackboxd.Bytes.{Bytes, bytes, equal}
use blackboxd.Bytes.Text.{reads, format_int}
use blackboxd.Entry.{LogEntry, ParseError}
use blackboxd.Source.File.{sanitize_utf8}

-- `JournalSourceConfig`; the parser is an argument of what uses it, and `has_parser` says whether
-- there is one.
pub record JournalSourceConfig : Type 0 where
  pub name : Bytes
  pub has_parser : Bool
  pub path : Bytes
  pub units : List Bytes
  pub min_priority : ℤ
  pub from_beginning : Bool
  pub binary : Bytes

-- The settings that `NewJournalSource` refuses.
pub data Refusal : Type 0 where
  no_name no_parser bad_priority : Refusal

-- `NewJournalSource`.
unfoldable pub new_journal_source : JournalSourceConfig → Result Refusal JournalSourceConfig
new_journal_source cfg =
    if equal cfg.name []
    then err no_name
    else if cfg.has_parser
    then (if ltb_ℤ cfg.min_priority (pos 0) || ltb_ℤ (pos 7) cfg.min_priority
        then err bad_priority
        else ok (record cfg {
          binary = if equal cfg.binary [] then bytes "journalctl" else cfg.binary;
        }))
    else err no_parser

-- Two arguments for each unit.
unfoldable pub unit_args : List Bytes → List Bytes
unit_args [] = []
unit_args (u ∷ us) = bytes "--unit" ∷ u ∷ unit_args us

unfoldable pub priority_args : ℤ → List Bytes
priority_args p = if ltb_ℤ (pos 0) p then bytes "--priority" ∷ format_int (pos_part p) ∷ [] else []

unfoldable pub directory_args : Bytes → List Bytes
directory_args path = if equal path [] then [] else bytes "--directory" ∷ path ∷ []

-- `argv`.
unfoldable pub argv : JournalSourceConfig → List Bytes
argv cfg =
    bytes "-o"
    ∷ bytes "export"
    ∷ ((if cfg.from_beginning then [] else bytes "-f" ∷ [])
        ++ (directory_args cfg.path ++ (unit_args cfg.units ++ priority_args cfg.min_priority)))

-- The record that is collected, if there is one.
abbrev pub collected : Bytes → List Bytes
collected [] = []
collected (c ∷ buf) = (c ∷ buf) ∷ []

-- The loop of `consume` on the lines that are read, what the last read returns, and whether that read
-- fails with an error other than `io.EOF`: the records, and whether it returns nil. The number says
-- how often `ctx` is found not done.
unfoldable pub consume_loop : ℕ → List Bytes → Bytes → Bool → Bytes → List Bytes × Bool
consume_loop zero lines tail broken buf = ([], true)
consume_loop (suc n) [] tail broken buf =
    if broken then ([], false) else (collected (buf ++ tail), true)
consume_loop (suc n) (l ∷ lines) tail broken buf =
    let blank = equal l (b'\n' ∷ []) in
    let (later, good) = consume_loop n lines tail broken (if blank then [] else buf ++ l) in
    if blank then (collected buf ++ later, good) else (later, good)

module _ (parser : Bytes → Result ParseError LogEntry) (valid_string : Bytes → Bool)
    (to_valid_utf8 : Bytes → Bytes) where
  -- `emitRecord`: the entries that it emits, one or none.
  unfoldable pub emit_record : Bytes → Bytes → List LogEntry
  emit_record name rec = elim (parser rec) [
    | err e ↦ []
    | ok e ↦ sanitize_utf8 parser valid_string to_valid_utf8 (record e { source = name }) ∷ []
  ]

  unfoldable pub emit_records : Bytes → List Bytes → List LogEntry
  emit_records name [] = []
  emit_records name (r ∷ rs) = emit_record name r ++ emit_records name rs

  -- `consume`: the entries that it emits, and whether it returns nil.
  unfoldable pub consume : JournalSourceConfig → ℕ → Bytes → Bool → List LogEntry × Bool
  consume cfg n output broken =
      let (lines, tail) = reads output in
      let (records, good) = consume_loop n lines tail broken [] in
      (emit_records cfg.name records, good)

  -- What a run of journalctl comes to: the pipes and the start work or not, what it writes, whether a
  -- read of that breaks, and whether the wait for it returns nil.
  pub record JournalProcess : Type 0 where
    pub starts : Bool
    pub output : Bytes
    pub broken : Bool
    pub exits_well : Bool

  -- `Run`: the entries that it emits, whether it kills the process, and whether it returns nil.
  unfoldable pub run_journal :
      JournalSourceConfig → ℕ → JournalProcess → List LogEntry × Bool × Bool
  run_journal cfg n p =
      let (entries, good) = consume cfg n p.output p.broken in
      if p.starts
      then (if good then (entries, false, p.exits_well) else (entries, true, false))
      else ([], false, false)

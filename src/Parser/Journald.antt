-- ===== src/Parser/Journald.antt =====
-- internal/parser/journald.go: one record of the journal's export format.
pub mod Entries
use blackboxd.Prelude.{
  ℕ, zero, suc, ◌+◌, ◌*◌, Bool, true, false, ◌&&◌, List, [], ◌∷◌, Option, none, some, Result, ok,
  err, ltb, if◌then◌else◌, take, drop,
}
use blackboxd.Prelude.Int.{ℤ, pos, negsuc, ◌+ℤ◌}
use blackboxd.Bytes.{Bytes, bytes, equal, index_byte, split, atoi, insert}
use blackboxd.Entry.{Time, LogEntry, empty_entry, ParseError, invalid_format, truncated_line}
use blackboxd.Parser.Common.{severity_to_level}

-- 1 January 1970 in nanoseconds since the zero time: 62135596800 seconds.
abbrev pub unix_epoch : ℕ
unix_epoch = 62135596800000000000

-- `time.Unix(n/1_000_000, (n%1_000_000)*1_000)` for `n` microseconds.
pub from_usec : ℤ → Time
unfolding ◌+ℤ◌
from_usec (pos n) = pos unix_epoch +ℤ pos (n * 1000)
from_usec (negsuc n) = pos unix_epoch +ℤ negsuc (n * 1000 + 999)

-- The cases of PRIORITY, `_PID`, SYSLOG_FACILITY and `__REALTIME_TIMESTAMP`: a value that is no
-- number leaves the entry as it is.
pub set_priority : LogEntry → Option ℤ → LogEntry
unfolding severity_to_level
set_priority e (some (pos n)) = if ltb 7 n then e else record e { level = severity_to_level n }
set_priority e _ = e

pub set_pid : LogEntry → Option ℤ → LogEntry
set_pid e none = e
set_pid e (some n) = record e { pid = n }

pub set_facility : LogEntry → Option ℤ → LogEntry
set_facility e none = e
set_facility e (some n) = record e { facility = n }

pub set_timestamp : LogEntry → Option ℤ → LogEntry
unfolding from_usec
set_timestamp e none = e
set_timestamp e (some n) = record e { timestamp = from_usec n }

-- `assignJournaldField`; the map `fields` is that of the entry.
unfoldable pub assign_field : LogEntry → Bytes → Bytes → LogEntry
unfolding equal set_priority set_pid set_facility set_timestamp insert
assign_field e key val =
    if equal key (bytes "MESSAGE")
    then record e { message = val }
    else if equal key (bytes "PRIORITY")
    then set_priority e (atoi val)
    else if equal key (bytes "_HOSTNAME")
    then record e { hostname = val }
    else if equal key (bytes "_PID")
    then set_pid e (atoi val)
    else if equal key (bytes "SYSLOG_IDENTIFIER")
    then record e { process = val }
    else if equal key (bytes "_COMM")
    then (if equal e.process [] then record e { process = val } else e)
    else if equal key (bytes "SYSLOG_FACILITY")
    then set_facility e (atoi val)
    else if equal key (bytes "__REALTIME_TIMESTAMP")
    then set_timestamp e (atoi val)
    else record e { fields = insert key val e.fields }

-- One line of the record: a line without a key in front of '=' is dropped.
unfoldable pub assign_line : LogEntry → Bytes → LogEntry
unfolding assign_field index_byte
assign_line e line = elim (index_byte b'=' line) [
  | none ↦ e
  | some zero ↦ e
  | some (suc i) ↦ assign_field e (take (suc i) line) (drop (suc i + 1) line)
]

unfoldable pub assign_lines : LogEntry → List Bytes → LogEntry
unfolding assign_line
assign_lines e [] = e
assign_lines e (line ∷ lines) = assign_lines (assign_line e line) lines

-- `entry.Message == "" && len(fields) == 0`.
pub has_nothing : LogEntry → Bool
unfolding equal
has_nothing e = equal e.message [] && elim e.fields [ [] ↦ true | x ∷ xs ↦ false ]

-- `journald.Parse`.
unfoldable pub parse : Bytes → Result ParseError LogEntry
unfolding assign_lines has_nothing split
parse [] = err truncated_line
parse (c ∷ cs) =
    let e : LogEntry =
      assign_lines (record empty_entry { source = bytes "journald" }) (split b'\n' (c ∷ cs)) in
    if has_nothing e then err invalid_format else ok e

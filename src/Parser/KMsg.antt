-- ===== src/Parser/KMsg.antt =====
-- internal/parser/kmsg.go: records of /dev/kmsg, `PRIORITY,SEQNUM,TIMESTAMP_USEC,FLAG[,...];MSG`.
-- A parser is its boot time, which the caller may give or `readBootTime` takes from /proc/uptime.
pub mod Records
use blackboxd.Prelude.{
  ℕ, ◌+◌, ◌*◌, ◌/◌, ◌%◌, Bool, true, false, not, ◌&&◌, ◌||◌, List, [], ◌∷◌, Option, none, some,
  Result, ok, err, ltb, ◌==◌, if◌then◌else◌, take, drop,
}
use blackboxd.Prelude.Int.{ℤ, pos, negsuc, ◌+ℤ◌, eqb_ℤ}
use blackboxd.Bytes.{Bytes, bytes, equal, index_byte, split_n, atoi, insert}
use blackboxd.Entry.{
  Time, zero_time, LogEntry, empty_entry, ParseError, invalid_format, truncated_line,
  invalid_priority,
}
use blackboxd.Parser.Common.{max_priority, severity_to_level, trim_trailing_newline}

-- `const maxUsec`.
abbrev pub max_usec : ℕ
max_usec = 9223372036854775

-- `p.bootTime.Add(time.Duration(usec) * time.Microsecond)`, or the zero time with no boot time.
pub stamp : Time → ℕ → Time
stamp boot usec = if not (eqb_ℤ boot zero_time) then boot +ℤ pos (usec * 1000) else zero_time

-- The entry that `Parse` builds; the fields are the flag and the sequence number.
pub entry : Time → ℕ → ℕ → Bytes → Bytes → Bytes → LogEntry
entry boot pri usec seq flag msg = record {
  timestamp = stamp boot usec;
  level = severity_to_level (pri % 8);
  facility = pos (pri / 8);
  hostname = [];
  process = bytes "kernel";
  pid = pos 0;
  message = msg;
  source = bytes "kmsg";
  fields =
      if not (equal flag []) && not (equal flag (bytes "-"))
      then (bytes "flag", flag) ∷ (bytes "seq", seq) ∷ []
      else [];
}

-- `pri < 0 || pri > maxPriority`, and then `usec < 0` and `usec > maxUsec`.
pub check_usec : Time → ℕ → Option ℤ → Bytes → Bytes → Bytes → Result ParseError LogEntry
check_usec boot pri (some (pos usec)) seq flag msg =
    if ltb max_usec usec then err invalid_format else ok (entry boot pri usec seq flag msg)
check_usec boot pri _ seq flag msg = err invalid_format

pub check_pri : Time → Option ℤ → Option ℤ → Bytes → Bytes → Bytes → Result ParseError LogEntry
check_pri boot (some (pos pri)) usec seq flag msg =
    if ltb max_priority pri then err invalid_priority else check_usec boot pri usec seq flag msg
check_pri boot _ usec seq flag msg = err invalid_priority

-- The header's fields, four at least.
pub parse_header : Time → List Bytes → Bytes → Result ParseError LogEntry
parse_header boot (pri ∷ seq ∷ usec ∷ flag ∷ more) msg =
    check_pri boot (atoi pri) (atoi usec) seq flag msg
parse_header boot _ msg = err invalid_format

pub parse_line : Time → Bytes → Result ParseError LogEntry
parse_line boot line = elim (index_byte b';' line) [
  | none ↦ err invalid_format
  | some semi ↦ parse_header boot (split_n b',' 5 (take semi line)) (drop (semi + 1) line)
]

-- `kmsg.Parse`.
unfoldable pub parse : Time → Bytes → Result ParseError LogEntry
parse boot line =
    if equal (trim_trailing_newline line) []
    then err truncated_line
    else parse_line boot (trim_trailing_newline line)

-- ===== src/Parser/SyslogBsd.antt =====
-- internal/parser/syslog_bsd.go: RFC 3164 syslog, `<PRI>TIMESTAMP HOSTNAME TAG[PID]: MESSAGE`.
-- The calendar of a time zone comes from the system's tables: it is a parameter, `Calendar`.
pub mod Messages
use blackboxd.Prelude.{
  ℕ, zero, suc, ◌+◌, Bool, not, ◌||◌, [], ◌∷◌, Option, none, some, Result, ok, err, ltb, ◌==◌,
  if◌then◌else◌, length, take, drop,
}
use blackboxd.Prelude.Int.{ℤ, pos}
use blackboxd.Bytes.{Bytes, bytes, equal, index_byte, has_prefix, trim_left, atoi}
use blackboxd.Entry.{Time, LogEntry, ParseError, invalid_format, truncated_line}
use blackboxd.Parser.Common.{parse_priority_field, severity_to_level, trim_trailing_newline}

-- What `time.ParseInLocation` reads with the layout "Jan _2 15:04:05".
pub record Stamp : Type 0 where
  pub month : ℕ
  pub day : ℕ
  pub hour : ℕ
  pub minute : ℕ
  pub second : ℕ

-- `time.ParseInLocation(syslogTimestampLayout, _, loc)` and `time.Date` at one location.
pub record Calendar : Type 0 where
  pub parse_stamp : Bytes → Option Stamp
  pub date : ℤ → Stamp → Time

-- `syslogBSD`.
pub record SyslogBsd : Type 0 where
  pub default_year : ℤ
  pub calendar : Calendar
  pub strict : Bool

abbrev pub timestamp_len : ℕ
timestamp_len = 15

-- `strings.IndexAny(s, "[: ")`.
unfoldable pub index_tag_end : Bytes → Option ℕ
index_tag_end [] = none
index_tag_end (c ∷ cs) =
    let later = index_tag_end cs in
    if c == b'[' || c == b':' || c == b' '
    then some 0
    else elim later [ none ↦ none | some i ↦ some (i + 1) ]

-- `if v, err := strconv.Atoi(...); err == nil && v >= 0 { pid = v }`, with 0 for all else.
pub pid_of : Option ℤ → ℤ
pid_of (some (pos n)) = pos n
pid_of _ = pos 0

-- The PID in brackets, if there is one, and what follows it.
pub take_pid : Bytes → ℤ × Bytes
unfolding index_byte has_prefix atoi pid_of
take_pid rest =
    if has_prefix rest (b'[' ∷ [])
    then elim (index_byte b']' rest) [
      | none ↦ (pos 0, rest)
      | some zero ↦ (pos 0, rest)
      | some (suc i) ↦ (pid_of (atoi (drop 1 (take (suc i) rest))), drop (suc i + 1) rest)
    ]
    else (pos 0, rest)

-- `strings.TrimPrefix(rest, ":")`, then `strings.TrimLeft(rest, " ")`.
pub trim_separator : Bytes → Bytes
unfolding has_prefix trim_left
trim_separator rest =
    trim_left (λ c. c == b' ') (if has_prefix rest (b':' ∷ []) then drop 1 rest else rest)

-- `splitTagAndMessage`. The flag `strict` chooses between two ways to leave `pid` at 0.
unfoldable pub split_tag_and_message : Bytes → Bytes × ℤ × Bytes
split_tag_and_message s = elim (index_tag_end s) [
  | none ↦ (s, pos 0, [])
  | some end ↦ let (pid, rest) = take_pid (drop end s) in (take end s, pid, trim_separator rest)
]

-- From the hostname on.
pub parse_host : Time → ℕ → ℕ → Bytes → Result ParseError LogEntry
parse_host ts facility severity rest = elim (index_byte b' ' rest) [
  | none ↦ err invalid_format
  | some zero ↦ err invalid_format
  | some (suc i) ↦
      let (tag, pid, msg) = split_tag_and_message (drop (suc i + 1) rest) in
      ok (record {
        timestamp = ts;
        level = severity_to_level severity;
        facility = pos facility;
        hostname = take (suc i) rest;
        process = tag;
        pid = pid;
        message = msg;
        source = bytes "syslog_bsd";
        fields = [];
      })
]

-- From the byte behind the timestamp on.
pub parse_space : Time → ℕ → ℕ → Bytes → Result ParseError LogEntry
parse_space ts facility severity [] = err invalid_format
parse_space ts facility severity (c ∷ rest) =
    if not (c == b' ') then err invalid_format else parse_host ts facility severity rest

-- From the timestamp on.
pub parse_rest : SyslogBsd → Bytes × ℕ × ℕ → Result ParseError LogEntry
parse_rest p (rest, facility, severity) =
    if ltb (length rest) timestamp_len
    then err truncated_line
    else elim (p.calendar.parse_stamp (take timestamp_len rest)) [
      | none ↦ err invalid_format
      | some stamp ↦
          parse_space (p.calendar.date p.default_year stamp) facility severity
            (drop timestamp_len rest)
    ]

-- `syslogBSD.Parse`.
unfoldable pub parse : SyslogBsd → Bytes → Result ParseError LogEntry
parse p line =
    if equal (trim_trailing_newline line) []
    then err truncated_line
    else elim (parse_priority_field (trim_trailing_newline line)) [
      | err e ↦ err e
      | ok found ↦ parse_rest p found
    ]

-- ===== src/Parser/Rfc5424.antt =====
-- internal/parser/syslog_rfc5424.go: RFC 5424 syslog.
-- `time.Parse(time.RFC3339Nano, _)` is a parameter.
pub mod StructuredData
pub mod Splits
pub mod Entries
pub mod Messages
use blackboxd.Prelude.{
  ℕ, zero, suc, ◌+◌, Bool, true, false, not, ◌&&◌, ◌||◌, List, [], ◌∷◌, Option, none, some, Result,
  ok, err, ◌>>=◌, ltb, ◌==◌, if◌then◌else◌, length, get_or, take, drop,
}
use blackboxd.Prelude.Int.{ℤ, pos, negsuc}
use blackboxd.Bytes.{Bytes, bytes, equal, index_byte, has_prefix, atoi}
use blackboxd.Entry.{Time, zero_time, LogEntry, ParseError, invalid_format, truncated_line}
use blackboxd.Parser.Common.{parse_priority_field, severity_to_level, trim_trailing_newline}
use StructuredData.{read_structured_data}

-- `takeUntilSpace`: the rest and the token.
unfoldable pub take_until_space : Bytes → Result ParseError (Bytes × Bytes)
unfolding index_byte equal
take_until_space s = elim (index_byte b' ' s) [
  | none ↦ if equal s [] then err truncated_line else ok ([], s)
  | some zero ↦ err invalid_format
  | some (suc i) ↦ ok (drop (suc i + 1) s, take (suc i) s)
]

-- `nilIfDash`.
unfoldable pub nil_if_dash : Bytes → Bytes
unfolding equal
nil_if_dash s = if equal s (bytes "-") then [] else s

-- The PROCID as a number; anything else is 0.
unfoldable pub pid_of_procid : Bytes → ℤ
unfolding equal atoi
pid_of_procid procid =
    if equal procid (bytes "-") then pos 0 else elim (atoi procid) [ none ↦ pos 0 | some v ↦ v ]

-- The message: one space and a byte order mark are dropped from its front.
unfoldable pub trim_message : Bytes → Bytes
unfolding has_prefix
trim_message rest =
    let body = if has_prefix rest (bytes " ") then drop 1 rest else rest in
    if has_prefix body (0xef ∷ 0xbb ∷ 0xbf ∷ []) then drop 3 body else body

-- `entry.Fields`.
unfoldable pub sd_fields : Bytes → List (Bytes × Bytes)
unfolding equal
sd_fields sd =
    if not (equal sd []) && not (equal sd (bytes "-"))
    then (bytes "structured_data", sd) ∷ []
    else []

module _ (parse_rfc3339 : Bytes → Option Time) where
  -- The TIMESTAMP field; "-" is the zero time.
  unfoldable pub parse_timestamp : Bytes → Result ParseError Time
  unfolding equal
  parse_timestamp field =
      if equal field (bytes "-")
      then ok zero_time
      else elim (parse_rfc3339 field) [ none ↦ err invalid_format | some ts ↦ ok ts ]

  -- From the VERSION on.
  unfoldable pub parse_fields : ℕ → ℕ → Bytes → Result ParseError LogEntry
  unfolding parse_timestamp take_until_space read_structured_data nil_if_dash pid_of_procid
      trim_message sd_fields severity_to_level
  parse_fields facility severity s0 = do
    (s1, version) ← take_until_space s0
    (s2, ts_field) ← take_until_space s1
    ts ← parse_timestamp ts_field
    (s3, host) ← take_until_space s2
    (s4, app) ← take_until_space s3
    (s5, procid) ← take_until_space s4
    (s6, msgid) ← take_until_space s5
    (s7, sd) ← read_structured_data s6
    ok (record {
      timestamp = ts;
      level = severity_to_level severity;
      facility = pos facility;
      hostname = nil_if_dash host;
      process = nil_if_dash app;
      pid = pid_of_procid procid;
      message = trim_message s7;
      source = bytes "syslog_rfc5424";
      fields = sd_fields sd;
    })

  -- `syslogRFC5424.Parse`.
  unfoldable pub parse : Bytes → Result ParseError LogEntry
  unfolding parse_fields parse_priority_field trim_trailing_newline equal
  parse line = if equal (trim_trailing_newline line) [] then err truncated_line else (do
    (rest, facility, severity) ← parse_priority_field (trim_trailing_newline line)
    parse_fields facility severity rest)

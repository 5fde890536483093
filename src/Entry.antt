-- ===== src/Entry.antt =====
-- internal/parser/parser.go: levels, log entries and the errors of the parsers.
pub mod Level
use blackboxd.Prelude.{ℕ, List, [], Bool, ◌&&◌, ◌==◌}
use blackboxd.Prelude.Int.{ℤ, pos, ltb_ℤ}
use blackboxd.Bytes.{Bytes}

-- `time.Time` as nanoseconds since Go's zero time, the first instant of the year 1 in UTC. The
-- location that a `Time` also carries is used by no code here.
abbrev pub Time : Type 0
Time = ℤ

abbrev pub zero_time : Time
zero_time = pos 0

-- `t.Before(u)`; `t.After(u)` is `before u t`.
abbrev pub before : Time → Time → Bool
before t u = ltb_ℤ t u

-- `LogEntry`. A nil map of fields and an empty one are the same list.
pub record LogEntry : Type 0 where
  pub timestamp : Time
  pub level : ℕ
  pub facility : ℤ
  pub hostname : Bytes
  pub process : Bytes
  pub pid : ℤ
  pub message : Bytes
  pub source : Bytes
  pub fields : List (Bytes × Bytes)

-- `&LogEntry{}`.
abbrev pub empty_entry : LogEntry
empty_entry = record {
  timestamp = zero_time;
  level = 0;
  facility = pos 0;
  hostname = [];
  process = [];
  pid = pos 0;
  message = [];
  source = [];
  fields = [];
}

-- The sentinel errors, which the parsers wrap with their context, and `unknown level`.
pub data ParseError : Type 0 where
  invalid_format truncated_line invalid_priority unknown_level : ParseError

-- ===== src/Parser/Dmesg.antt =====
-- internal/parser/dmesg.go. Dates and floating-point numbers are those of Go's library: parameters.
use blackboxd.Prelude.{
  ℕ, ◌+◌, Bool, false, not, [], ◌∷◌, Option, none, some, Result, ok, err, ltb, ◌==◌, ◌||◌, ◌>>=◌,
  if◌then◌else◌, take, drop,
}
use blackboxd.Prelude.Int.{ℤ, pos, ◌+ℤ◌, eqb_ℤ}
use blackboxd.Bytes.{Bytes, bytes, equal, index_byte, trim_left}
use blackboxd.Bytes.Text.{trim_space}
use blackboxd.Entry.{Time, LogEntry, ParseError, invalid_format, truncated_line, zero_time}
use blackboxd.Entry.Level.{info}
use blackboxd.Parser.Common.{trim_trailing_newline}

-- `strconv.ParseFloat` with 64 bits, and the `float64` operations that the code uses.
pub record Floats (F : Type 0) : Type 0 where
  pub parse_float : Bytes → Option F
  pub of_int : ℕ → F
  pub less : F → F → Bool
  pub same : F → F → Bool
  pub times : F → F → F
  pub to_int : F → ℤ

abbrev pub is_after_first : Option ℕ → Bool
is_after_first none = false
is_after_first (some i) = ltb 0 i

-- `strings.TrimLeft(s, " \t")`.
abbrev pub is_blank : ℕ → Bool
is_blank c = (c == b' ') || (c == b'\t')

unfoldable pub kernel_entry : Time → Bytes → LogEntry
kernel_entry ts message = record {
  timestamp = ts;
  level = info;
  facility = pos 0;
  hostname = [];
  process = bytes "kernel";
  pid = pos 0;
  message = message;
  source = bytes "dmesg";
  fields = [];
}

module _ {F : Type 0} (floats : Floats F) (parse_iso : Bytes → Option Time) where
  -- Below zero, no number, or above `maxSecs`.
  unfoldable pub out_of_range : F → Bool
  out_of_range secs =
      floats.less secs (floats.of_int 0)
      || (not (floats.same secs secs) || floats.less (floats.of_int 9223372036) secs)

  -- Seconds since the boot.
  unfoldable pub legacy_timestamp : Time → Option F → Result ParseError Time
  legacy_timestamp boot none = err invalid_format
  legacy_timestamp boot (some secs) =
      if out_of_range secs
      then err invalid_format
      else if eqb_ℤ boot zero_time
      then ok zero_time
      else ok (boot +ℤ floats.to_int (floats.times secs (floats.of_int 1000000000)))

  -- `parseDmesgTimestamp`.
  unfoldable pub parse_dmesg_timestamp : Bytes → Time → Result ParseError Time
  parse_dmesg_timestamp field boot =
      let s = trim_space field in
      if equal s []
      then err invalid_format
      else if is_after_first (index_byte b'T' s)
      then elim (parse_iso s) [ none ↦ err invalid_format | some ts ↦ ok ts ]
      else legacy_timestamp boot (floats.parse_float s)

  -- Behind the opening bracket.
  unfoldable pub parse_brackets : Time → Bytes → Result ParseError LogEntry
  parse_brackets boot s = elim (index_byte b']' s) [
    | none ↦ err invalid_format
    | some i ↦ parse_dmesg_timestamp (take i s) boot >>= λ ts.
        ok (kernel_entry ts (trim_left is_blank (drop (i + 1) s)))
  ]

  unfoldable pub parse_trimmed : Time → Bytes → Result ParseError LogEntry
  parse_trimmed boot [] = err truncated_line
  parse_trimmed boot (c ∷ cs) = if c == b'[' then parse_brackets boot cs else err invalid_format

  -- `Parse`, of a parser with this boot time.
  unfoldable pub parse : Time → Bytes → Result ParseError LogEntry
  parse boot line = parse_trimmed boot (trim_trailing_newline line)

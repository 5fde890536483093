-- ===== src/Parser/Rfc5424/Messages.antt =====
-- Which messages of RFC 5424 are read, and as what.
use blackboxd.Prelude.{ℕ, ◌≤◌, ◌≡◌, refl, List, [], ◌∷◌, ◌++◌, Option, ok, length, arith}
use blackboxd.Bytes.{Bytes}
use blackboxd.Bytes.Laws.{Lacks, index_byte-append, take-length-append, drop_behind}
use blackboxd.Entry.{Time, LogEntry}
use blackboxd.Parser.Common.{trim_trailing_newline}
use blackboxd.Parser.Common.Priority.{IsPriority, IsPriority-some, parse_priority_field_iff}
use blackboxd.Parser.Rfc5424.StructuredData.{read_structured_data}
use blackboxd.Parser.Rfc5424.Entries.{
  parse_timestamp-IsStamp, IsStamp, Header, IsEntry, entry_of, entry_of-IsEntry,
}
use blackboxd.Parser.Rfc5424.{take_until_space, parse_timestamp, parse_fields, parse}

-- A token of the header.
pub record IsToken (token : Bytes) : Type 0 where
  pub no_space : Lacks b' ' token
  pub not_empty : 1 ≤ length token

take_until_space-IsToken :
    (token rest : Bytes)
    → IsToken token
    → take_until_space (token ++ (b' ' ∷ rest)) ≡ ok (rest, token)
unfolding take_until_space
take_until_space-IsToken [] rest h = absurd (omega (arith, h.not_empty))
take_until_space-IsToken (c ∷ token) rest h =
    rw
      (
        take_until_space,
        index_byte-append b' ' (c ∷ token) rest h.no_space,
        take-length-append (c ∷ token) (b' ' ∷ rest),
        drop_behind (c ∷ token) b' ' rest,
      )
      refl

pub record AreTokens (h : Header) : Type 0 where
  pub version_is : IsToken h.version
  pub stamp_is : IsToken h.stamp
  pub host_is : IsToken h.host
  pub app_is : IsToken h.app
  pub procid_is : IsToken h.procid
  pub msgid_is : IsToken h.msgid

-- The tokens with a space behind each, in front of the structured data.
abbrev tokens_before : List Bytes → Bytes → Bytes
tokens_before [] rest = rest
tokens_before (t ∷ ts) rest = t ++ (b' ' ∷ tokens_before ts rest)

abbrev pub header_before : Header → Bytes → Bytes
header_before h = tokens_before (h.version ∷ h.stamp ∷ h.host ∷ h.app ∷ h.procid ∷ h.msgid ∷ [])

module _ (parse_rfc3339 : Bytes → Option Time) where
  parse_fields-AreTokens :
      (facility severity : ℕ) (h : Header) (rest sd text : Bytes) (ts : Time)
      → AreTokens h
      → parse_timestamp parse_rfc3339 h.stamp ≡ ok ts
      → read_structured_data rest ≡ ok (text, sd)
      → parse_fields parse_rfc3339 facility severity (header_before h rest)
        ≡ ok (entry_of ts facility severity h sd text)
  unfolding parse_fields
  parse_fields-AreTokens facility severity h rest sd text ts tokens stamped structured = simp (
    take_until_space-IsToken h.version _ tokens.version_is,
    take_until_space-IsToken h.stamp _ tokens.stamp_is,
    take_until_space-IsToken h.host _ tokens.host_is,
    take_until_space-IsToken h.app _ tokens.app_is,
    take_until_space-IsToken h.procid _ tokens.procid_is,
    take_until_space-IsToken h.msgid rest tokens.msgid_is,
    stamped,
    structured,
  )

  -- A line with a priority field, six nonempty tokens without spaces with a space behind each, of
  -- which the second is a dash or a timestamp that can be read, and structured data that can be
  -- read behind them, is parsed to an entry with that time, level and facility, the host and the
  -- application unless they are a dash, the process id if it is a number of 63 bits and 0 if it is
  -- no number, the text behind without one space and one byte order mark, and the structured data
  -- if there is any.
  pub parse-AreTokens :
      (line : Bytes) (facility severity : ℕ) (h : Header) (rest sd text : Bytes) (ts : Time)
      → IsPriority (trim_trailing_newline line) (header_before h rest) facility severity
      → AreTokens h
      → IsStamp parse_rfc3339 h.stamp ts
      → read_structured_data rest ≡ ok (text, sd)
      → (e : LogEntry) × (parse parse_rfc3339 line ≡ ok e)
        × IsEntry ts facility severity h sd text e
  unfolding parse
  parse-AreTokens line facility severity h rest sd text ts p tokens stamped structured =
      let field = (parse_priority_field_iff _ _ facility severity).1 p in
      (
        entry_of ts facility severity h sd text,
        rw (IsPriority-some _ _ facility severity p, field)
            (parse_fields-AreTokens facility severity h rest sd text ts tokens
              (parse_timestamp-IsStamp parse_rfc3339 h.stamp ts stamped) structured),
        entry_of-IsEntry ts facility severity h sd text tokens.procid_is.not_empty
            (omega (arith, p.severity_is)),
      )

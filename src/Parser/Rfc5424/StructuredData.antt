-- ===== src/Parser/Rfc5424/StructuredData.antt =====
-- internal/parser/syslog_rfc5424.go: `readStructuredData`, which finds the end of the
-- STRUCTURED-DATA by its brackets, quotes and backslashes.
use blackboxd.Prelude.{
  ℕ, zero, suc, ◌+◌, Bool, false, not, ◌&&◌, [], ◌∷◌, Option, none, some, Result, ok, err, ◌==◌,
  if◌then◌else◌, length, take, drop,
}
use blackboxd.Bytes.{Bytes, bytes}
use blackboxd.Entry.{ParseError, invalid_format, truncated_line}

-- The inner loop over `s[j..]`: the index of the closing bracket, counted from `j`; `none` where the
-- text ends first.
unfoldable pub close_bracket : Bool → Bytes → Option ℕ
close_bracket quoted [] = none
close_bracket quoted (c ∷ []) =
    if c == b'"' then none else if not quoted && c == b']' then some 0 else none
close_bracket quoted (c ∷ d ∷ cs) =
    let escaped = close_bracket quoted cs in
    let after_quote = close_bracket (not quoted) (d ∷ cs) in
    let after_byte = close_bracket quoted (d ∷ cs) in
    if c == b'\\'
    then elim escaped [ none ↦ none | some j ↦ some (j + 2) ]
    else if c == b'"'
    then elim after_quote [ none ↦ none | some j ↦ some (j + 1) ]
    else if not quoted && c == b']'
    then some 0
    else elim after_byte [ none ↦ none | some j ↦ some (j + 1) ]

-- The outer loop over `s[i..]`, `i` given: the index behind the last segment, or `none` for a
-- segment that is not closed. Each round takes a byte at least, so the length is fuel enough.
unfoldable pub segments : ℕ → ℕ → Bytes → Option ℕ
unfolding close_bracket
segments zero i s = some i
segments (suc n) i [] = some i
segments (suc n) i (c ∷ cs) = if not (c == b'[') then some i else elim (close_bracket false cs) [
  | none ↦ none
  | some j ↦ segments n (i + j + 2) (drop (j + 1) cs)
]

-- The slices `s[i:]` and `s[:i]`.
unfoldable pub cut_at : Bytes → Option ℕ → Result ParseError (Bytes × Bytes)
cut_at s none = err invalid_format
cut_at s (some i) = ok (drop i s, take i s)

-- `readStructuredData`: the rest and the raw text.
unfoldable pub read_structured_data : Bytes → Result ParseError (Bytes × Bytes)
unfolding segments cut_at
read_structured_data [] = err truncated_line
read_structured_data (c ∷ cs) =
    if c == b'-'
    then ok (cs, bytes "-")
    else if not (c == b'[')
    then err invalid_format
    else cut_at (c ∷ cs) (segments (length (c ∷ cs)) 0 (c ∷ cs))

-- ===== src/Parser/Journald/Entries.antt =====
-- What holds of every entry that the journald parser returns.
use blackboxd.Prelude.{
  zero, suc, ◌<◌, ◌≡◌, refl, List, [], ◌∷◌, Option, none, some, Option-cases, Bool-cases, inl, inr,
  ok, err, false, ◌+◌, subst, Result, if◌then◌else◌, take, drop, arith,
}
use blackboxd.Prelude.Int.{ℤ, pos, negsuc}
use blackboxd.Bytes.{Bytes, bytes, index_byte, split, atoi}
use blackboxd.Entry.{LogEntry, empty_entry, ParseError, invalid_format}
use blackboxd.Parser.Common.{severity_to_level-lt}
use blackboxd.Parser.Journald.{
  set_priority, set_pid, set_facility, set_timestamp, assign_field, assign_line, assign_lines,
  has_nothing, parse,
}

-- A level below 8, and the source that `Parse` put.
abbrev pub IsSound : LogEntry → Type 0
IsSound e = (e.level < 8) × (e.source ≡ bytes "journald")

set_priority-IsSound : (e : LogEntry) (n : Option ℤ) → IsSound e → IsSound (set_priority e n)
unfolding set_priority
set_priority-IsSound e none h = h
set_priority-IsSound e (some (negsuc n)) h = h
set_priority-IsSound e (some (pos n)) h = ground (arith, severity_to_level-lt n)

set_number-IsSound :
    (e : LogEntry) (n : Option ℤ)
    → IsSound e
    → IsSound (set_pid e n) × IsSound (set_facility e n) × IsSound (set_timestamp e n)
unfolding set_pid set_facility set_timestamp
set_number-IsSound e none h = (h, h, h)
set_number-IsSound e (some n) h = (h, h, h)

assign_field-IsSound :
    (e : LogEntry) (key val : Bytes) → IsSound e → IsSound (assign_field e key val)
unfolding assign_field
assign_field-IsSound e key val h =
    ground (arith, set_priority-IsSound e (atoi val) h, set_number-IsSound e (atoi val) h)

assign_line-IsSound : (e : LogEntry) (line : Bytes) → IsSound e → IsSound (assign_line e line)
unfolding assign_line
assign_line-IsSound e line h = elim (Option-cases (index_byte b'=' line)) [
  | inl missing ↦ rw (assign_line, missing) h
  | inr (zero, found) ↦ rw (assign_line, found) h
  | inr (suc i, found) ↦
      rw (assign_line, found) (assign_field-IsSound e (take (suc i) line) (drop (suc i + 1) line) h)
]

assign_lines-IsSound :
    (e : LogEntry) (lines : List Bytes) → IsSound e → IsSound (assign_lines e lines)
unfolding assign_lines
assign_lines-IsSound e [] h = h
assign_lines-IsSound e (line ∷ lines) h =
    assign_lines-IsSound (assign_line e line) lines (assign_line-IsSound e line h)

-- The last check of `Parse`.
check_made : LogEntry → Result ParseError LogEntry
check_made made = if has_nothing made then err invalid_format else ok made

returned-IsSound :
    (made : LogEntry) {e : LogEntry}
    → check_made made ≡ ok e
    → IsSound made
    → IsSound e × (has_nothing e ≡ false)
unfolding check_made
returned-IsSound made {e} h sound = elim (Bool-cases (has_nothing made)) [
  | inl empty ↦ absurd (ground arith)
  | inr kept ↦
      let same : made ≡ e = (let out = rw kept at h in cc) in
      subst (λ x. IsSound x × (has_nothing x ≡ false)) same (sound, kept)
]

-- Every entry that the journald parser returns has a level below 8, the source "journald", and a
-- message or a field.
pub parse-IsSound :
    (text : Bytes) {e : LogEntry} → parse text ≡ ok e → IsSound e × (has_nothing e ≡ false)
unfolding parse check_made
parse-IsSound [] h = absurd (cc)
parse-IsSound (c ∷ cs) h =
    let start : LogEntry = record empty_entry { source = bytes "journald" } in
    returned-IsSound _ h (assign_lines-IsSound start (split b'\n' (c ∷ cs)) (omega arith, refl))

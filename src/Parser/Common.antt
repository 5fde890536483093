-- ===== src/Parser/Common.antt =====
-- internal/parser/syslog_common.go: what the syslog parsers share.
pub mod Priority
use blackboxd.Prelude.{
  ◌≡◌, ℕ, zero, suc, ◌+◌, ◌-◌, ◌*◌, ◌/◌, ◌%◌, ◌<◌, arith, Bool, not, ◌||◌, List, [], ◌∷◌, Option,
  none, some, Result, ok, err, ltb, ◌==◌, if◌then◌else◌, length, get_or, take, drop,
}
use blackboxd.Bytes.{Bytes, is_digit}
use blackboxd.Entry.{ParseError, invalid_format, invalid_priority}
use blackboxd.Entry.Level.{emergency, alert, critical, error, warning, notice, info, debug}

abbrev pub max_priority : ℕ
max_priority = 191

-- The loop of `parsePriorityField` over `s[i..]`, with the rounds left, the index and `prio`. It
-- returns `end` (`none` is -1) and `prio`.
pub scan_priority : ℕ → Bytes → ℕ → ℕ → Result ParseError (Option ℕ × ℕ)
scan_priority zero s i prio = ok (none, prio)
scan_priority (suc n) [] i prio = ok (none, prio)
scan_priority (suc n) (c ∷ cs) i prio =
    let later = scan_priority n cs (i + 1) (prio * 10 + (c - b'0')) in
    if c == b'>'
    then ok (some i, prio)
    else if not (is_digit c)
    then err invalid_priority
    else later

-- What follows the loop, on the whole `s`.
pub check_priority : Bytes → Option ℕ × ℕ → Result ParseError (Bytes × ℕ × ℕ)
check_priority s (none, prio) = err invalid_priority
check_priority s (some end, prio) =
    if end == 1
    then err invalid_priority
    else if ltb max_priority prio
    then err invalid_priority
    else ok (drop (end + 1) s, prio / 8, prio % 8)

-- `parsePriorityField`: the rest, the facility and the severity.
unfoldable pub parse_priority_field : Bytes → Result ParseError (Bytes × ℕ × ℕ)
unfolding scan_priority check_priority
parse_priority_field s =
    if ltb (length s) 3 || not (get_or s 0 0 == b'<')
    then err invalid_format
    else elim (scan_priority 4 (drop 1 s) 1 0) [ err e ↦ err e | ok found ↦ check_priority s found ]

-- `severityToLevel`.
unfoldable pub severity_to_level : ℕ → ℕ
severity_to_level severity =
    if severity == 0
    then emergency
    else if severity == 1
    then alert
    else if severity == 2
    then critical
    else if severity == 3
    then error
    else if severity == 4
    then warning
    else if severity == 5
    then notice
    else if severity == 6
    then info
    else if severity == 7
    then debug
    else warning

pub severity_to_level-lt : (severity : ℕ) → severity_to_level severity < 8
unfolding severity_to_level
severity_to_level-lt severity = ground arith

pub severity_to_level_lem : (severity : ℕ) → severity < 8 → severity_to_level severity ≡ severity
unfolding severity_to_level
severity_to_level_lem severity h = ground arith

-- `if n > 0 && line[n-1] == c { line = line[:n-1] }`.
pub drop_last_if : ℕ → Bytes → Bytes
drop_last_if c line =
    if ltb 0 (length line)
    then if get_or line (length line - 1) 0 == c then take (length line - 1) line else line
    else line

-- `trimTrailingNewline`.
unfoldable pub trim_trailing_newline : Bytes → Bytes
unfolding drop_last_if
trim_trailing_newline line = drop_last_if b'\r' (drop_last_if b'\n' line)

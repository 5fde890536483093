-- ===== src/Entry/Level.antt =====
-- internal/parser/parser.go: `Level`, a `uint8`, and its JSON form.
use blackboxd.Prelude.{
  ℕ, ◌-◌, ◌<◌, ◌≡◌, ◌&&◌, ◌||◌, [], ◌∷◌, ◌++◌, Result, ok, err, arith, ltb, leb, ◌==◌,
  if◌then◌else◌, length, get_or, take, drop,
}
use blackboxd.Bytes.{Bytes, bytes, equal}
use blackboxd.Entry.{ParseError, unknown_level, invalid_format}

-- The constants, in the order of `iota`.
abbrev pub emergency : ℕ
emergency = 0

abbrev pub alert : ℕ
alert = 1

abbrev pub critical : ℕ
critical = 2

abbrev pub error : ℕ
error = 3

abbrev pub warning : ℕ
warning = 4

abbrev pub notice : ℕ
notice = 5

abbrev pub info : ℕ
info = 6

abbrev pub debug : ℕ
debug = 7

-- `Level.String`.
unfoldable pub to_string : ℕ → Bytes
to_string l =
    if l == emergency
    then bytes "emerg"
    else if l == alert
    then bytes "alert"
    else if l == critical
    then bytes "crit"
    else if l == error
    then bytes "error"
    else if l == warning
    then bytes "warn"
    else if l == notice
    then bytes "notice"
    else if l == info
    then bytes "info"
    else if l == debug
    then bytes "debug"
    else bytes "unknown"

-- `Level.MarshalJSON`.
unfoldable pub marshal_json : ℕ → Bytes
unfolding to_string
marshal_json l = (b'"' ∷ []) ++ to_string l ++ (b'"' ∷ [])

-- The surrounding quotes are stripped only if both are there and the length permits.
unfoldable pub strip_quotes : Bytes → Bytes
strip_quotes b =
    if leb 2 (length b) && get_or b 0 0 == b'"' && get_or b (length b - 1) 0 == b'"'
    then drop 1 (take (length b - 1) b)
    else b

-- The `switch` of `UnmarshalJSON`.
unfoldable pub from_name : Bytes → Result ParseError ℕ
unfolding equal
from_name b =
    if equal b (bytes "emerg") || equal b (bytes "0")
    then ok emergency
    else if equal b (bytes "alert") || equal b (bytes "1")
    then ok alert
    else if equal b (bytes "crit") || equal b (bytes "2")
    then ok critical
    else if equal b (bytes "error") || equal b (bytes "err") || equal b (bytes "3")
    then ok error
    else if equal b (bytes "warn") || equal b (bytes "warning") || equal b (bytes "4")
    then ok warning
    else if equal b (bytes "notice") || equal b (bytes "5")
    then ok notice
    else if equal b (bytes "info") || equal b (bytes "6")
    then ok info
    else if equal b (bytes "debug") || equal b (bytes "7")
    then ok debug
    else err unknown_level

-- `Level.UnmarshalJSON`, which returns the level that it stores.
unfoldable pub unmarshal_json : Bytes → Result ParseError ℕ
unfolding strip_quotes from_name
unmarshal_json [] = err invalid_format
unmarshal_json (c ∷ cs) = from_name (strip_quotes (c ∷ cs))

-- Every level below 8 is read back from its JSON form, and the JSON form of any other level is
-- refused.
pub unmarshal_json-marshal_json :
    (l : ℕ) → unmarshal_json (marshal_json l) ≡ (if ltb l 8 then ok l else err unknown_level)
unfolding unmarshal_json marshal_json
unmarshal_json-marshal_json l = ground arith

from_name-lt : (b : Bytes) {l : ℕ} → from_name b ≡ ok l → l < 8
unfolding from_name
from_name-lt b h = grind arith

-- A level that is read from JSON is below 8, whatever the bytes.
pub unmarshal_json-lt : (b : Bytes) {l : ℕ} → unmarshal_json b ≡ ok l → l < 8
unfolding unmarshal_json
unmarshal_json-lt [] h = cc
unmarshal_json-lt (c ∷ cs) h = from_name-lt (strip_quotes (c ∷ cs)) h

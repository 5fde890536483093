-- ===== src/Bytes.antt =====
-- Go strings and byte slices as lists of bytes, with the operations of the packages `strings` and
-- `strconv` that the parsers call.
pub mod Laws
pub mod Numbers
pub mod Maps
pub mod Sorted
pub mod Text
use Prim.Native.Char.{code}
use Prim.Native.String.{String}
use blackboxd.Prelude.{
  ℕ, zero, suc, ◌+◌, ◌-◌, ◌*◌, ◌^◌, Bool, true, false, ◌&&◌, List, [], ◌∷◌, ◌++◌, Option, none,
  some, leb, ltb, ◌==◌, if◌then◌else◌, take, drop,
}
use blackboxd.Prelude.Int.{ℤ, pos, negsuc}

abbrev pub Bytes : Type 0
Bytes = List ℕ

-- A literal: the code points of a text, which are its bytes if it is ASCII.
abbrev pub bytes : String → Bytes
bytes String.[] = []
bytes (String.◌∷◌ c s) = code c ∷ bytes s

-- `a == b` on strings.
unfoldable pub equal : Bytes → Bytes → Bool
equal [] [] = true
equal (x ∷ xs) (y ∷ ys) = x == y && equal xs ys
equal _ _ = false

-- `strings.IndexByte(s, c)`; `none` is -1.
unfoldable pub index_byte : ℕ → Bytes → Option ℕ
index_byte c [] = none
index_byte c (x ∷ xs) =
    let later = index_byte c xs in
    if x == c then some 0 else elim later [ none ↦ none | some i ↦ some (i + 1) ]

-- `strings.HasPrefix(s, p)`.
unfoldable pub has_prefix : Bytes → Bytes → Bool
has_prefix s [] = true
has_prefix [] (p ∷ ps) = false
has_prefix (x ∷ xs) (p ∷ ps) = x == p && has_prefix xs ps

-- `strings.TrimLeft(s, cutset)`, the set given by its test.
unfoldable pub trim_left : (ℕ → Bool) → Bytes → Bytes
trim_left cut [] = []
trim_left cut (x ∷ xs) = if cut x then trim_left cut xs else x ∷ xs

-- Puts a byte in front of the first piece.
abbrev pub onto_first : ℕ → List Bytes → List Bytes
onto_first c [] = (c ∷ []) ∷ []
onto_first c (p ∷ ps) = (c ∷ p) ∷ ps

-- What `strings.Split(s, sep)` returns for a one-byte separator: at least one piece.
unfoldable pub split : ℕ → Bytes → List Bytes
split sep [] = [] ∷ []
split sep (x ∷ xs) =
    let pieces = split sep xs in if x == sep then [] ∷ pieces else onto_first x pieces

-- `strings.SplitN(s, sep, n)` for a one-byte separator.
unfoldable pub split_n : ℕ → ℕ → Bytes → List Bytes
unfolding index_byte
split_n sep zero s = []
split_n sep (suc zero) s = s ∷ []
split_n sep (suc (suc n)) s = elim (index_byte sep s) [
  | none ↦ s ∷ []
  | some i ↦ take i s ∷ split_n sep (suc n) (drop (i + 1) s)
]

-- A `map[string]string` as an association list with one entry for each key.
unfoldable pub lookup : Bytes → List (Bytes × Bytes) → Option Bytes
unfolding equal
lookup k [] = none
lookup k ((j, v) ∷ m) = if equal j k then some v else lookup k m

-- `m[k] = v`.
unfoldable pub insert : Bytes → Bytes → List (Bytes × Bytes) → List (Bytes × Bytes)
unfolding equal
insert k v [] = (k, v) ∷ []
insert k v ((j, w) ∷ m) = if equal j k then (k, v) ∷ m else (j, w) ∷ insert k v m

-- `'0' <= c && c <= '9'`.
abbrev pub is_digit : ℕ → Bool
is_digit c = leb b'0' c && leb c b'9'

-- The value of a run of digits after the value read so far; `none` at any other byte.
unfoldable pub digits_from : ℕ → Bytes → Option ℕ
digits_from acc [] = some acc
digits_from acc (c ∷ cs) = if is_digit c then digits_from (acc * 10 + (c - b'0')) cs else none

-- An unsigned decimal: one digit at least.
unfoldable pub unsigned : Bytes → Option ℕ
unfolding digits_from
unsigned [] = none
unsigned (c ∷ cs) = digits_from 0 (c ∷ cs)

-- The value with its sign, if it fits in an `int64`.
abbrev nonneg : Option ℕ → Option ℤ
nonneg none = none
nonneg (some n) = if ltb n (2 ^ 63) then some (pos n) else none

abbrev negated : Option ℕ → Option ℤ
negated none = none
negated (some zero) = some (pos 0)
negated (some (suc n)) = if ltb n (2 ^ 63) then some (negsuc n) else none

-- `strconv.Atoi` where `int` has 64 bits, and `strconv.ParseInt(s, 10, 64)`.
unfoldable pub atoi : Bytes → Option ℤ
unfolding unsigned
atoi [] = none
atoi (c ∷ cs) =
    if c == b'+'
    then nonneg (unsigned cs)
    else if c == b'-'
    then negated (unsigned cs)
    else nonneg (unsigned (c ∷ cs))

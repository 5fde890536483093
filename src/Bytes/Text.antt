-- ===== src/Bytes/Text.antt =====
-- Reading a text line by line, cutting it at blank lines, trimming it, and writing numbers.
use blackboxd.Prelude.{
  ℕ, zero, suc, ◌+◌, ◌/◌, ◌%◌, true, false, ◌&&◌, List, [], ◌∷◌, Option, none, some, ◌==◌,
  if◌then◌else◌, length, drop,
}
use mathlib.Core.List.{reverse}
use blackboxd.Bytes.{Bytes, has_prefix, onto_first}

-- Puts a byte in front of the first line that is read.
abbrev pub onto_read : ℕ → List Bytes × Bytes → List Bytes × Bytes
onto_read c ([], tail) = ([], c ∷ tail)
onto_read c (l ∷ ls, tail) = ((c ∷ l) ∷ ls, tail)

-- What the calls of `ReadString('\n')` on a text return before the one that meets its end, each with
-- its newline, and what that one returns.
unfoldable pub reads : Bytes → List Bytes × Bytes
reads [] = ([], [])
reads (c ∷ cs) =
    let (ls, tail) = reads cs in
    if c == b'\n' then ((c ∷ []) ∷ ls, tail) else onto_read c (ls, tail)

-- `strings.Split(s, "\n\n")`.
unfoldable pub split_blank : Bytes → List Bytes
split_blank [] = [] ∷ []
split_blank (c ∷ []) = (c ∷ []) ∷ []
split_blank (c ∷ d ∷ cs) = elim (c == b'\n' && d == b'\n') [
  | true ↦ [] ∷ split_blank cs
  | false ↦ onto_first c (split_blank (d ∷ cs))
]

-- The encodings of the characters that `unicode.IsSpace` accepts.
abbrev pub spaces : List Bytes
spaces =
    (9 ∷ [])
    ∷ (10 ∷ [])
    ∷ (11 ∷ [])
    ∷ (12 ∷ [])
    ∷ (13 ∷ [])
    ∷ (32 ∷ [])
    ∷ (194 ∷ 133 ∷ [])
    ∷ (194 ∷ 160 ∷ [])
    ∷ (225 ∷ 154 ∷ 128 ∷ [])
    ∷ (226 ∷ 128 ∷ 128 ∷ [])
    ∷ (226 ∷ 128 ∷ 129 ∷ [])
    ∷ (226 ∷ 128 ∷ 130 ∷ [])
    ∷ (226 ∷ 128 ∷ 131 ∷ [])
    ∷ (226 ∷ 128 ∷ 132 ∷ [])
    ∷ (226 ∷ 128 ∷ 133 ∷ [])
    ∷ (226 ∷ 128 ∷ 134 ∷ [])
    ∷ (226 ∷ 128 ∷ 135 ∷ [])
    ∷ (226 ∷ 128 ∷ 136 ∷ [])
    ∷ (226 ∷ 128 ∷ 137 ∷ [])
    ∷ (226 ∷ 128 ∷ 138 ∷ [])
    ∷ (226 ∷ 128 ∷ 168 ∷ [])
    ∷ (226 ∷ 128 ∷ 169 ∷ [])
    ∷ (226 ∷ 128 ∷ 175 ∷ [])
    ∷ (226 ∷ 129 ∷ 159 ∷ [])
    ∷ (227 ∷ 128 ∷ 128 ∷ [])
    ∷ []

abbrev pub reversed_each : List Bytes → List Bytes
reversed_each [] = []
reversed_each (s ∷ ss) = reverse s ∷ reversed_each ss

-- What is behind the first of the prefixes that a text has.
unfoldable pub drop_prefix : List Bytes → Bytes → Option Bytes
unfolding has_prefix
drop_prefix [] s = none
drop_prefix (p ∷ ps) s = if has_prefix s p then some (drop (length p) s) else drop_prefix ps s

unfoldable pub trim_prefixes : List Bytes → ℕ → Bytes → Bytes
unfolding drop_prefix
trim_prefixes ps zero s = s
trim_prefixes ps (suc n) s = elim (drop_prefix ps s) [
  | none ↦ s
  | some rest ↦ trim_prefixes ps n rest
]

-- `strings.TrimSpace`. Each round takes a byte at least.
unfoldable pub trim_space : Bytes → Bytes
unfolding trim_prefixes
trim_space s =
    let left = trim_prefixes spaces (length s) s in
    reverse (trim_prefixes (reversed_each spaces) (length left) (reverse left))

-- `%d` of a number that is not negative, in front of what is written. Each round makes it smaller.
unfoldable pub digits_onto : ℕ → ℕ → Bytes → Bytes
digits_onto zero n out = out
digits_onto (suc k) n out = elim (n / 10 == 0) [
  | true ↦ (b'0' + n % 10) ∷ out
  | false ↦ digits_onto k (n / 10) ((b'0' + n % 10) ∷ out)
]

unfoldable pub format_int : ℕ → Bytes
unfolding digits_onto
format_int n = digits_onto (n + 1) n []

-- ===== src/Parser/Common/Priority.antt =====
-- The priority fields that `parsePriorityField` of internal/parser/syslog_common.go accepts.
use blackboxd.Prelude.{
  ℕ, zero, suc, ◌+◌, ◌-◌, ◌*◌, ◌/◌, ◌%◌, ◌≤◌, ◌<◌, ◌≡◌, refl, false, ◌↔◌, ap, inl, inr, [], ◌∷◌,
  ◌++◌, none, some, ok, Result-cases, arith, ◌==◌, Bool-cases, length, length-append, drop,
}
use blackboxd.Bytes.{Bytes, equal, is_digit}
use blackboxd.Bytes.Numbers.{value_from, value, Digits}
use blackboxd.Bytes.Laws.{drop_behind}
use blackboxd.Parser.Common.{scan_priority, check_priority, parse_priority_field}

-- `s` is a priority field, "<digits>", in front of `rest`.
pub record IsPriority (s rest : Bytes) (facility severity : ℕ) : Type 0 where
  pub digits : Bytes
  pub splits : s ≡ b'<' ∷ (digits ++ (b'>' ∷ rest))
  pub all_digits : Digits digits
  pub one_at_least : 1 ≤ length digits
  pub three_at_most : length digits ≤ 3
  pub in_range : value digits ≤ 191
  pub facility_is : facility ≡ value digits / 8
  pub severity_is : severity ≡ value digits % 8

-- A text with a priority field is not empty.
pub IsPriority-some :
    (s rest : Bytes) (facility severity : ℕ)
    → IsPriority s rest facility severity
    → equal s [] ≡ false
unfolding equal
IsPriority-some s rest facility severity p = rw (p.splits) refl

scan_priority-Digits :
    (ds rest : Bytes) (n i prio : ℕ)
    → Digits ds
    → length ds < n
    → scan_priority n (ds ++ (b'>' ∷ rest)) i prio ≡ ok (some (i + length ds), value_from prio ds)
unfolding scan_priority
scan_priority-Digits ds rest zero i prio h lt = absurd (omega arith)
scan_priority-Digits [] rest (suc n) i prio h lt = ground arith
scan_priority-Digits (c ∷ ds) rest (suc n) i prio h lt =
    ground (arith, scan_priority-Digits ds rest n (i + 1) (prio * 10 + (c - b'0')) h.1)

-- What the scan found, in the text that it ran over.
record Scanned (n : ℕ) (s : Bytes) (i prio end value' : ℕ) : Type 0 where
  digits : Bytes
  rest : Bytes
  splits : s ≡ digits ++ (b'>' ∷ rest)
  all_digits : Digits digits
  short : length digits < n
  end_is : end ≡ i + length digits
  value_is : value' ≡ value_from prio digits

scan_priority-Scanned :
    (n : ℕ) (s : Bytes) (i prio : ℕ) {end v : ℕ}
    → scan_priority n s i prio ≡ ok (some end, v)
    → Scanned n s i prio end v
unfolding scan_priority
scan_priority-Scanned zero s i prio h = absurd (cc)
scan_priority-Scanned (suc n) [] i prio h = absurd (cc)
scan_priority-Scanned (suc n) (c ∷ cs) i prio {end} {v} h = elim (Bool-cases (c == b'>')) [
  | inl e ↦ record {
    digits = [];
    rest = cs;
    splits = ground arith;
    all_digits = tt;
    short = omega arith;
    end_is = ground arith;
    value_is = ground arith;
  }
  | inr ne ↦ elim (Bool-cases (is_digit c)) [
    | inl d ↦
        (let deeper : Scanned n cs (i + 1) (prio * 10 + (c - b'0')) end v =
            scan_priority-Scanned n cs (i + 1) (prio * 10 + (c - b'0')) (ground arith) in
          record {
            digits = c ∷ deeper.digits;
            rest = deeper.rest;
            splits = ap (◌∷◌ c) deeper.splits;
            all_digits = (d, deeper.all_digits);
            short = omega (arith, deeper.short);
            end_is = omega (arith, deeper.end_is);
            value_is = deeper.value_is;
          })
    | inr nd ↦ absurd (ground arith)
  ]
]

parse_priority_field-Digits :
    (ds rest : Bytes)
    → Digits ds
    → 1 ≤ length ds
    → length ds ≤ 3
    → value ds ≤ 191
    → parse_priority_field (b'<' ∷ (ds ++ (b'>' ∷ rest))) ≡ ok (rest, value ds / 8, value ds % 8)
unfolding parse_priority_field
parse_priority_field-Digits ds rest h one three v = ground (
  arith,
  scan_priority-Digits ds rest 4 1 0 h,
  length-append ds (b'>' ∷ rest),
  drop_behind (b'<' ∷ ds) b'>' rest,
)

parse_priority_field_complete :
    (s rest : Bytes) (facility severity : ℕ)
    → IsPriority s rest facility severity
    → parse_priority_field s ≡ ok (rest, facility, severity)
parse_priority_field_complete s rest facility severity p =
    rw (p.splits, p.facility_is, p.severity_is)
      (parse_priority_field-Digits p.digits rest p.all_digits p.one_at_least p.three_at_most
        p.in_range)

-- The checks behind the loop, on what it found.
check_priority-IsPriority :
    (c : ℕ) (s : Bytes) {rest : Bytes} {facility severity end v : ℕ}
    → c ≡ b'<'
    → Scanned 4 s 1 0 end v
    → check_priority (c ∷ s) (some end, v) ≡ ok (rest, facility, severity)
    → IsPriority (c ∷ s) rest facility severity
unfolding check_priority
check_priority-IsPriority c s {rest} c_is f h =
    let behind : drop (suc (length f.digits) + 1) (c ∷ s) ≡ f.rest =
      rw f.splits (drop_behind (c ∷ f.digits) b'>' f.rest) in
    let same : f.rest ≡ rest = ground (arith, f.end_is) in
    record {
      digits = f.digits;
      splits = rw (c_is, f.splits, same);
      all_digits = f.all_digits;
      one_at_least = ground (arith, f.end_is);
      three_at_most = omega (arith, f.short);
      in_range = ground (arith, f.value_is);
      facility_is = ground (arith, f.value_is);
      severity_is = ground (arith, f.value_is);
    }

parse_priority_field_sound :
    (s : Bytes) {rest : Bytes} {facility severity : ℕ}
    → parse_priority_field s ≡ ok (rest, facility, severity)
    → IsPriority s rest facility severity
unfolding parse_priority_field
parse_priority_field_sound [] h = absurd (cc)
parse_priority_field_sound (c ∷ s) h = elim (Result-cases (scan_priority 4 s 1 0)) [
  | inl ((none, v), e) ↦ absurd (ground arith)
  | inl ((some end, v), e) ↦
      check_priority-IsPriority c s (ground arith) (scan_priority-Scanned 4 s 1 0 e) (ground arith)
  | inr (e, f) ↦ absurd (ground arith)
]

-- parsePriorityField accepts a text exactly when it starts with one to three digits between angle
-- brackets whose value is 191 at most, and then returns the value divided by 8, the remainder, and
-- the text behind.
pub parse_priority_field_iff :
    (s rest : Bytes) (facility severity : ℕ)
    → (parse_priority_field s ≡ ok (rest, facility, severity)) ↔ IsPriority s rest facility severity
parse_priority_field_iff s rest facility severity =
    (parse_priority_field_sound s, parse_priority_field_complete s rest facility severity)

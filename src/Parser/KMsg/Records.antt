-- ===== src/Parser/KMsg/Records.antt =====
-- Which records of /dev/kmsg are read, as what, and the bounds of every entry that is returned.
use blackboxd.Prelude.{
  false, ℕ, zero, suc, ◌*◌, ◌/◌, ◌%◌, ◌^◌, ◌≤◌, ◌<◌, ◌≡◌, ◌≢◌, refl, ap, subst, ◌∙◌, append-nil,
  ◌⊎◌, inl, inr, List, [], ◌∷◌, ◌++◌, Option, some, Option-cases, ok, arith, ltb, Bool-cases,
  length,
}
use blackboxd.Prelude.Int.{ℤ, pos, negsuc, ◌+ℤ◌, eqb_ℤ}
use blackboxd.Bytes.{Bytes, bytes, equal, index_byte, split_n, atoi}
use blackboxd.Bytes.Numbers.{value, Digits, atoi-Digits}
use blackboxd.Bytes.Laws.{
  Lacks, index_byte-append, take-length-append, drop_behind, split_n-append, split_n-last,
  equal-nil, equal_iff,
}
use blackboxd.Entry.{Time, LogEntry}
use blackboxd.Parser.Common.{trim_trailing_newline, severity_to_level-lt, severity_to_level_lem}
use blackboxd.Parser.KMsg.{
  max_usec, stamp, entry, check_usec, check_pri, parse_header, parse_line, parse,
}

-- The header `PRIORITY,SEQNUM,TIMESTAMP_USEC,FLAG[,...]` of a record.
pub record IsHeader (header pri seq usec flag : Bytes) : Type 0 where
  pub more : Bytes
  pub splits : header ≡ pri ++ (b',' ∷ (seq ++ (b',' ∷ (usec ++ (b',' ∷ (flag ++ more))))))
  pub more_fields : (more ≡ []) ⊎ ((x : Bytes) × (more ≡ b',' ∷ x))
  pub pri_digits : Digits pri
  pub pri_some : 1 ≤ length pri
  pub pri_in_range : value pri ≤ 191
  pub seq_no_comma : Lacks b',' seq
  pub usec_digits : Digits usec
  pub usec_some : 1 ≤ length usec
  pub usec_in_range : value usec ≤ max_usec
  pub flag_no_comma : Lacks b',' flag

Digits-Lacks-comma : (ds : Bytes) → Digits ds → Lacks b',' ds
Digits-Lacks-comma [] h = tt
Digits-Lacks-comma (c ∷ ds) h = (ground arith, Digits-Lacks-comma ds h.1)

-- The flag's piece is cut off whether or not more fields follow it.
split_flag :
    (flag more : Bytes)
    → Lacks b',' flag
    → (more ≡ []) ⊎ ((x : Bytes) × (more ≡ b',' ∷ x))
    → (rest : List Bytes) × (split_n b',' 2 (flag ++ more) ≡ flag ∷ rest)
split_flag flag more h (inl e) = ([], rw (e, append-nil) (split_n-last b',' 0 flag h))
split_flag flag more h (inr (x, e)) = (split_n b',' 1 x, rw e (split_n-append b',' 0 flag x h))

split_header :
    {header pri seq usec flag : Bytes}
    → IsHeader header pri seq usec flag
    → (rest : List Bytes) × (split_n b',' 5 header ≡ pri ∷ seq ∷ usec ∷ flag ∷ rest)
split_header {pri = pri} {seq = seq} {usec = usec} {flag = flag} h =
    let (rest, e) = split_flag flag h.more h.flag_no_comma h.more_fields in
    (
      rest,
      rw h.splits (
          split_n-append b',' 3 pri _ (Digits-Lacks-comma pri h.pri_digits)
          ∙ ap (◌∷◌ pri) (
              split_n-append b',' 2 seq _ h.seq_no_comma
              ∙ ap (◌∷◌ seq) (
                  split_n-append b',' 1 usec _ (Digits-Lacks-comma usec h.usec_digits)
                  ∙ ap (◌∷◌ usec) e))),
    )

check_in_range :
    (boot : Time) (pri usec : ℕ) (seq flag msg : Bytes)
    → pri ≤ 191
    → usec ≤ max_usec
    → check_pri boot (some (pos pri)) (some (pos usec)) seq flag msg
      ≡ ok (entry boot pri usec seq flag msg)
unfolding check_pri check_usec
check_in_range boot pri usec seq flag msg hp hu = ground arith

append-ne-nil : (s : Bytes) (c : ℕ) (t : Bytes) → s ++ (c ∷ t) ≢ []
append-ne-nil [] c t h = cc
append-ne-nil (x ∷ s) c t h = cc

parse_header-IsHeader :
    (boot : Time) {header pri seq usec flag : Bytes} (rest : List Bytes) (msg : Bytes)
    → IsHeader header pri seq usec flag
    → parse_header boot (pri ∷ seq ∷ usec ∷ flag ∷ rest) msg
      ≡ ok (entry boot (value pri) (value usec) seq flag msg)
unfolding parse_header
parse_header-IsHeader boot {pri = pri} {seq = seq} {usec = usec} {flag = flag} rest msg h =
    rw
      (
        atoi-Digits pri h.pri_digits h.pri_some (omega (arith, h.pri_in_range)),
        atoi-Digits usec h.usec_digits h.usec_some (omega (arith, h.usec_in_range)),
      )
      (check_in_range boot (value pri) (value usec) seq flag msg h.pri_in_range h.usec_in_range)

parse_line-IsHeader :
    (boot : Time) (header pri seq usec flag msg : Bytes)
    → Lacks b';' header
    → IsHeader header pri seq usec flag
    → parse_line boot (header ++ (b';' ∷ msg))
      ≡ ok (entry boot (value pri) (value usec) seq flag msg)
unfolding parse_line
parse_line-IsHeader boot header pri seq usec flag msg no_semi h =
    let (rest, parts) = split_header h in
    rw
      (
        parse_line,
        index_byte-append b';' header msg no_semi,
        take-length-append header (b';' ∷ msg),
        drop_behind header b';' msg,
        parts,
      )
      (parse_header-IsHeader boot rest msg h)

-- What the entry of a record has: the time is some microseconds after the boot, if the boot time is
-- known; the priority is the facility's eightfold and the level; the fields are there for a flag.
pub record IsEntry (boot : Time) (pri usec : ℕ) (seq flag msg : Bytes) (e : LogEntry) : Type 0 where
  pub booted : boot ≢ pos 0 → e.timestamp ≡ boot +ℤ pos (usec * 1000)
  pub no_boot : boot ≡ pos 0 → e.timestamp ≡ pos 0
  pub level_is : e.level ≡ pri % 8
  pub facility_is : e.facility ≡ pos (pri / 8)
  pub hostname_is : e.hostname ≡ []
  pub process_is : e.process ≡ bytes "kernel"
  pub pid_is : e.pid ≡ pos 0
  pub message_is : e.message ≡ msg
  pub source_is : e.source ≡ bytes "kmsg"
  pub flagged :
      flag ≢ [] → flag ≢ bytes "-" → e.fields ≡ (bytes "flag", flag) ∷ (bytes "seq", seq) ∷ []
  pub unflagged : (flag ≡ []) ⊎ (flag ≡ bytes "-") → e.fields ≡ []

stamp_booted : (boot : Time) (usec : ℕ) → boot ≢ pos 0 → stamp boot usec ≡ boot +ℤ pos (usec * 1000)
unfolding stamp
stamp_booted (pos zero) usec h = absurd (h refl)
stamp_booted (pos (suc n)) usec h =
    let known : eqb_ℤ (pos (suc n)) (pos 0) ≡ false = ground arith in rw known refl
stamp_booted (negsuc n) usec h =
    let known : eqb_ℤ (negsuc n) (pos 0) ≡ false = ground arith in rw known refl

stamp_no_boot : (boot : Time) (usec : ℕ) → boot ≡ pos 0 → stamp boot usec ≡ pos 0
unfolding stamp
stamp_no_boot boot usec h = rw h refl

entry-IsEntry :
    (boot : Time) (pri usec : ℕ) (seq flag msg : Bytes)
    → IsEntry boot pri usec seq flag msg (entry boot pri usec seq flag msg)
unfolding entry
entry-IsEntry boot pri usec seq flag msg = record {
  booted = stamp_booted boot usec;
  no_boot = stamp_no_boot boot usec;
  level_is = severity_to_level_lem (pri % 8) (omega arith);
  facility_is = refl;
  hostname_is = refl;
  process_is = refl;
  pid_is = refl;
  message_is = refl;
  source_is = refl;
  flagged = λ some' other. ground (arith, equal_iff flag [], equal_iff flag (bytes "-"));
  unflagged = λ h. ground (arith, equal_iff flag [], equal_iff flag (bytes "-"));
}

-- A kmsg line whose header has a priority of 191 at most, a sequence number, a timestamp that
-- fits, a flag and any further fields, and a semicolon behind it, is parsed to an entry with all
-- that follows the first semicolon for its message, so many microseconds after the boot time if
-- that is known, the priority's remainder by 8 for its level and its quotient for its facility,
-- and the flag and the sequence number among its fields exactly if the flag is neither empty nor a
-- dash.
pub parse-IsHeader :
    (boot : Time) (line header pri seq usec flag msg : Bytes)
    → trim_trailing_newline line ≡ header ++ (b';' ∷ msg)
    → Lacks b';' header
    → IsHeader header pri seq usec flag
    → (e : LogEntry) × (parse boot line ≡ ok e)
      × IsEntry boot (value pri) (value usec) seq flag msg e
unfolding parse
parse-IsHeader boot line header pri seq usec flag msg e no_semi h = (
  entry boot (value pri) (value usec) seq flag msg,
  rw (e, equal-nil (header ++ (b';' ∷ msg)) (append-ne-nil header b';' msg))
      (parse_line-IsHeader boot header pri seq usec flag msg no_semi h),
  entry-IsEntry boot (value pri) (value usec) seq flag msg,
)

-- The entry of a record that was read: its numbers are in range, and the offset from the boot time,
-- in nanoseconds, fits in a `time.Duration`.
pub record InRange (boot : Time) (e : LogEntry) : Type 0 where
  pub usec : ℕ
  pub time_is : e.timestamp ≡ stamp boot usec
  pub fits : usec * 1000 < 2 ^ 63
  pub level_lt : e.level < 8
  pub facility : ℕ
  pub facility_is : e.facility ≡ pos facility
  pub facility_le : facility ≤ 23

entry-InRange :
    (boot : Time) (pri usec : ℕ) (seq flag msg : Bytes)
    → pri ≤ 191
    → usec ≤ max_usec
    → InRange boot (entry boot pri usec seq flag msg)
unfolding entry
entry-InRange boot pri usec seq flag msg hp hu = record {
  usec = usec;
  time_is = refl;
  fits = omega arith;
  level_lt = severity_to_level-lt (pri % 8);
  facility = pri / 8;
  facility_is = refl;
  facility_le = omega arith;
}

check_usec-InRange :
    (boot : Time) (pri : ℕ) (usec : Option ℤ) (seq flag msg : Bytes) {e : LogEntry}
    → pri ≤ 191
    → check_usec boot pri usec seq flag msg ≡ ok e
    → InRange boot e
unfolding check_usec
check_usec-InRange boot pri (some (pos usec)) seq flag msg hp h =
    elim (Bool-cases (ltb max_usec usec)) [
      | inl big ↦ absurd (ground arith)
      | inr fits ↦
          subst (InRange boot) (ground arith)
            (entry-InRange boot pri usec seq flag msg hp (ground arith))
    ]
check_usec-InRange boot pri _ seq flag msg hp h = absurd (cc)

check_pri-InRange :
    (boot : Time) (pri usec : Option ℤ) (seq flag msg : Bytes) {e : LogEntry}
    → check_pri boot pri usec seq flag msg ≡ ok e
    → InRange boot e
unfolding check_pri
check_pri-InRange boot (some (pos pri)) usec seq flag msg h = elim (Bool-cases (ltb 191 pri)) [
  | inl big ↦ absurd (ground arith)
  | inr fits ↦ check_usec-InRange boot pri usec seq flag msg (ground arith) (ground arith)
]
check_pri-InRange boot _ usec seq flag msg h = absurd (cc)

parse_header-InRange :
    (boot : Time) (parts : List Bytes) (msg : Bytes) {e : LogEntry}
    → parse_header boot parts msg ≡ ok e
    → InRange boot e
unfolding parse_header
parse_header-InRange boot (pri ∷ seq ∷ usec ∷ flag ∷ more) msg h =
    check_pri-InRange boot (atoi pri) (atoi usec) seq flag msg h
parse_header-InRange boot _ msg h = absurd (cc)

-- Every entry that the kmsg parser returns has a level below 8, a facility of 23 at most, and the
-- timestamp of some microseconds whose nanoseconds fit in 63 bits.
pub parse-InRange :
    (boot : Time) (line : Bytes) {e : LogEntry} → parse boot line ≡ ok e → InRange boot e
unfolding parse parse_line
parse-InRange boot line h = elim (Bool-cases (equal (trim_trailing_newline line) [])) [
  | inl none_left ↦ absurd (ground arith)
  | inr text ↦ elim (Option-cases (index_byte b';' (trim_trailing_newline line))) [
    | inl missing ↦ absurd (ground arith)
    | inr (i, found) ↦ parse_header-InRange boot _ _ (rw (text, parse_line, found) at h)
  ]
]

-- ===== src/Parser/SyslogBsd/Messages.antt =====
-- Which messages of BSD syslog are read, and as what.
use blackboxd.Prelude.{
  ℕ, suc, ◌≤◌, ◌<◌, ◌^◌, ◌≡◌, refl, ap, ◌∙◌, sym, false, ◌||◌, [], ◌∷◌, ◌++◌, some, ok, length, All,
  ◌==◌, ltb, take, drop, length-append, arith,
}
use blackboxd.Prelude.Int.{ℤ, pos}
use blackboxd.Bytes.{Bytes, bytes, index_byte, trim_left, has_prefix}
use blackboxd.Bytes.Numbers.{Digits, value, atoi-Digits}
use blackboxd.Bytes.Laws.{
  Lacks, index_byte-append, take-length-append, drop_behind, drop-length-append,
}
use blackboxd.Entry.{Time, LogEntry}
use blackboxd.Parser.Common.{severity_to_level, trim_trailing_newline}
use blackboxd.Parser.Common.Priority.{IsPriority, IsPriority-some, parse_priority_field_iff}
use blackboxd.Parser.SyslogBsd.{
  SyslogBsd, Stamp, timestamp_len, index_tag_end, pid_of, take_pid, trim_separator,
  split_tag_and_message, parse_host, parse_space, parse_rest, parse,
}

-- A tag has no bracket, colon or space.
abbrev pub IsTag : Bytes → Type 0
IsTag = All (λ c. ((c == b'[') || (c == b':') || (c == b' ')) ≡ false)

index_tag_end-IsTag :
    (tag rest : Bytes) → IsTag tag → index_tag_end (tag ++ (b'[' ∷ rest)) ≡ some (length tag)
unfolding index_tag_end
index_tag_end-IsTag [] rest h = refl
index_tag_end-IsTag (c ∷ tag) rest h =
    rw (h.0, index_tag_end-IsTag tag rest h.1) (ap some (omega arith))

Digits-Lacks_bracket : (ds : Bytes) → Digits ds → Lacks b']' ds
Digits-Lacks_bracket [] h = tt
Digits-Lacks_bracket (c ∷ ds) h = (ground arith, Digits-Lacks_bracket ds h.1)

take_pid-Digits :
    (ds rest : Bytes)
    → Digits ds
    → 1 ≤ length ds
    → value ds < 2 ^ 63
    → take_pid (b'[' ∷ (ds ++ (b']' ∷ rest))) ≡ (pos (value ds), rest)
unfolding take_pid has_prefix pid_of
take_pid-Digits ds rest h one small =
    let found : index_byte b']' (b'[' ∷ (ds ++ (b']' ∷ rest))) ≡ some (suc (length ds)) =
      index_byte-append b']' (b'[' ∷ ds) rest (refl, Digits-Lacks_bracket ds h) in
    rw
      (
        take_pid,
        found,
        take-length-append ds (b']' ∷ rest),
        drop_behind (b'[' ∷ ds) b']' rest,
        atoi-Digits ds h one small,
      )
      refl

trim_separator-colon :
    (msg : Bytes) → trim_left (λ c. c == b' ') msg ≡ msg → trim_separator (b':' ∷ b' ' ∷ msg) ≡ msg
unfolding trim_separator has_prefix trim_left
trim_separator-colon msg trimmed = trimmed

-- A text "tag[pid]: message", whose tag has no bracket, colon or space, whose pid is one or more
-- digits of a value below 2^63, and whose message does not start with a space, is cut into the
-- tag, the value and the message.
pub split_tag_and_message-IsTag :
    (tag ds msg : Bytes)
    → IsTag tag
    → Digits ds
    → 1 ≤ length ds
    → value ds < 2 ^ 63
    → trim_left (λ c. c == b' ') msg ≡ msg
    → split_tag_and_message (tag ++ (b'[' ∷ (ds ++ (b']' ∷ b':' ∷ b' ' ∷ msg))))
      ≡ (tag, pos (value ds), msg)
unfolding split_tag_and_message
split_tag_and_message-IsTag tag ds msg ht hd one small trimmed =
    rw
      (
        split_tag_and_message,
        index_tag_end-IsTag tag (ds ++ (b']' ∷ b':' ∷ b' ' ∷ msg)) ht,
        take-length-append tag (b'[' ∷ (ds ++ (b']' ∷ b':' ∷ b' ' ∷ msg))),
        drop-length-append tag (b'[' ∷ (ds ++ (b']' ∷ b':' ∷ b' ' ∷ msg))),
        take_pid-Digits ds (b':' ∷ b' ' ∷ msg) hd one small,
        trim_separator-colon msg trimmed,
      )
      refl

-- The entry of a message's parts.
abbrev pub entry_of : Time → ℕ → ℕ → Bytes → Bytes → ℤ → Bytes → LogEntry
entry_of ts facility severity host tag pid msg = record {
  timestamp = ts;
  level = severity_to_level severity;
  facility = pos facility;
  hostname = host;
  process = tag;
  pid = pid;
  message = msg;
  source = bytes "syslog_bsd";
  fields = [];
}

parse_host-Lacks :
    (ts : Time) (facility severity : ℕ) (host body tag msg : Bytes) (pid : ℤ)
    → Lacks b' ' host
    → 1 ≤ length host
    → split_tag_and_message body ≡ (tag, pid, msg)
    → parse_host ts facility severity (host ++ (b' ' ∷ body))
      ≡ ok (entry_of ts facility severity host tag pid msg)
unfolding parse_host
parse_host-Lacks ts facility severity [] body tag msg pid h one e = absurd (omega arith)
parse_host-Lacks ts facility severity (c ∷ host) body tag msg pid h one e =
    rw
      (
        parse_host,
        index_byte-append b' ' (c ∷ host) body h,
        take-length-append (c ∷ host) (b' ' ∷ body),
        drop_behind (c ∷ host) b' ' body,
        e,
      )
      refl

parse_rest-Stamp :
    (p : SyslogBsd) (facility severity : ℕ) (time rest : Bytes) (stamp : Stamp)
    → length time ≡ timestamp_len
    → p.calendar.parse_stamp time ≡ some stamp
    → parse_rest p (time ++ (b' ' ∷ rest), facility, severity)
      ≡ parse_host (p.calendar.date p.default_year stamp) facility severity rest
unfolding parse_rest parse_space
parse_rest-Stamp p facility severity time rest stamp n e =
    let whole : ltb (length (time ++ (b' ' ∷ rest))) timestamp_len ≡ false =
      ground (arith, length-append time (b' ' ∷ rest)) in
    let front : take timestamp_len (time ++ (b' ' ∷ rest)) ≡ time =
      ap (λ k. take k (time ++ (b' ' ∷ rest))) (sym n) ∙ take-length-append time (b' ' ∷ rest) in
    let behind : drop timestamp_len (time ++ (b' ' ∷ rest)) ≡ b' ' ∷ rest =
      ap (λ k. drop k (time ++ (b' ' ∷ rest))) (sym n) ∙ drop-length-append time (b' ' ∷ rest) in
    rw (whole, front, e, behind) refl

-- A line with a priority field, a timestamp of 15 bytes that the calendar reads, a space, a
-- nonempty host name without spaces, a space, and a text that splitTagAndMessage cuts into three,
-- is parsed to the entry of these parts, with the timestamp in the default year.
pub parse-Stamp :
    (p : SyslogBsd) (line : Bytes) (facility severity : ℕ) (time host body tag msg : Bytes)
    (stamp : Stamp) (pid : ℤ)
    → IsPriority
        (trim_trailing_newline line)
        (time ++ (b' ' ∷ (host ++ (b' ' ∷ body))))
        facility
        severity
    → length time ≡ timestamp_len
    → p.calendar.parse_stamp time ≡ some stamp
    → Lacks b' ' host
    → 1 ≤ length host
    → split_tag_and_message body ≡ (tag, pid, msg)
    → parse p line
      ≡ ok (entry_of (p.calendar.date p.default_year stamp) facility severity host tag pid msg)
unfolding parse
parse-Stamp p line facility severity time host body tag msg stamp pid field n e h one cut =
    rw
      (
        IsPriority-some _ _ facility severity field,
        (parse_priority_field_iff _ _ facility severity).1 field,
      )
      (parse_rest-Stamp p facility severity time (host ++ (b' ' ∷ body)) stamp n e
        ∙ parse_host-Lacks (p.calendar.date p.default_year stamp) facility severity host body tag
            msg pid h one cut)

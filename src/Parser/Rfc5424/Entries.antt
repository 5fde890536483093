-- ===== src/Parser/Rfc5424/Entries.antt =====
-- What the entry of an RFC 5424 message has of the message's parts.
use blackboxd.Prelude.{
  ℕ, ◌≤◌, ◌<◌, ◌^◌, ◌≡◌, ◌≢◌, refl, ap, ap₂, ◌∙◌, ◌⊎◌, inl, inr, true, false, [], ◌∷◌, ◌++◌, Option,
  ok, none, some, Bool-cases, length, drop, if◌then◌else◌, arith,
}
use blackboxd.Prelude.Int.{pos}
use blackboxd.Bytes.{Bytes, bytes, equal, has_prefix, atoi}
use blackboxd.Bytes.Laws.{equal_iff}
use blackboxd.Bytes.Numbers.{value, Digits, atoi-Digits}
use blackboxd.Entry.{Time, LogEntry}
use blackboxd.Parser.Common.{severity_to_level, severity_to_level_lem}
use blackboxd.Parser.Rfc5424.{nil_if_dash, pid_of_procid, trim_message, sd_fields, parse_timestamp}

-- The tokens of a header, in order.
pub record Header : Type 0 where
  pub version : Bytes
  pub stamp : Bytes
  pub host : Bytes
  pub app : Bytes
  pub procid : Bytes
  pub msgid : Bytes

-- The entry of a message's parts.
abbrev pub entry_of : Time → ℕ → ℕ → Header → Bytes → Bytes → LogEntry
entry_of ts facility severity h sd text = record {
  timestamp = ts;
  level = severity_to_level severity;
  facility = pos facility;
  hostname = nil_if_dash h.host;
  process = nil_if_dash h.app;
  pid = pid_of_procid h.procid;
  message = trim_message text;
  source = bytes "syslog_rfc5424";
  fields = sd_fields sd;
}

abbrev byte_order_mark : Bytes
byte_order_mark = 0xef ∷ 0xbb ∷ 0xbf ∷ []

-- A text without the one space and the byte order mark that it may start with.
pub record IsTrimmed (text message : Bytes) : Type 0 where
  pub space : Bytes
  pub mark : Bytes
  pub splits : text ≡ space ++ (mark ++ message)
  pub spaced : (space ≡ bytes " ") ⊎ ((space ≡ []) × ((x : Bytes) → text ≢ b' ' ∷ x))
  pub marked :
      (mark ≡ byte_order_mark) ⊎ ((mark ≡ []) × ((x : Bytes) → message ≢ byte_order_mark ++ x))

-- A field whose dash stands for nothing.
pub record IsValue (field value' : Bytes) : Type 0 where
  pub dash : field ≡ bytes "-" → value' ≡ []
  pub other : field ≢ bytes "-" → value' ≡ field

-- The time of a TIMESTAMP field; a dash is the zero time.
abbrev pub IsStamp : (Bytes → Option Time) → Bytes → Time → Type 0
IsStamp parse_rfc3339 field ts =
    ((field ≡ bytes "-") × (ts ≡ pos 0)) ⊎ ((field ≢ bytes "-") × (parse_rfc3339 field ≡ some ts))

pub parse_timestamp-IsStamp :
    (parse_rfc3339 : Bytes → Option Time) (field : Bytes) (ts : Time)
    → IsStamp parse_rfc3339 field ts
    → parse_timestamp parse_rfc3339 field ≡ ok ts
unfolding parse_timestamp
parse_timestamp-IsStamp parse_rfc3339 field ts (inl (e, zero_is)) = rw (e, zero_is) refl
parse_timestamp-IsStamp parse_rfc3339 field ts (inr (ne, read)) =
    let other : equal field (bytes "-") ≡ false = ground (arith, equal_iff field (bytes "-")) in
    rw (other, read) refl

-- What the entry of a message has.
pub record IsEntry (ts : Time) (facility severity : ℕ) (h : Header) (sd text : Bytes) (e : LogEntry)
    : Type 0 where
  pub timestamp_is : e.timestamp ≡ ts
  pub level_is : e.level ≡ severity
  pub facility_is : e.facility ≡ pos facility
  pub hostname_is : IsValue h.host e.hostname
  pub process_is : IsValue h.app e.process
  pub pid_number : Digits h.procid → value h.procid < 2 ^ 63 → e.pid ≡ pos (value h.procid)
  pub pid_other : (h.procid ≡ bytes "-") ⊎ (atoi h.procid ≡ none) → e.pid ≡ pos 0
  pub message_is : IsTrimmed text e.message
  pub source_is : e.source ≡ bytes "syslog_rfc5424"
  pub no_data : (sd ≡ []) ⊎ (sd ≡ bytes "-") → e.fields ≡ []
  pub data_is : sd ≢ [] → sd ≢ bytes "-" → e.fields ≡ (bytes "structured_data", sd) ∷ []

nil_if_dash-IsValue : (field : Bytes) → IsValue field (nil_if_dash field)
unfolding nil_if_dash
nil_if_dash-IsValue field = record {
  dash = λ h. ground (arith, equal_iff field (bytes "-"));
  other = λ h. ground (arith, equal_iff field (bytes "-"));
}

has_prefix-cut : (s p : Bytes) → has_prefix s p ≡ true → s ≡ p ++ drop (length p) s
unfolding has_prefix
has_prefix-cut s [] h = refl
has_prefix-cut [] (c ∷ p) h = absurd (cc)
has_prefix-cut (d ∷ s) (c ∷ p) h =
    let heads : d ≡ c = ground arith in
    let tails : has_prefix s p ≡ true = ground arith in ap₂ ◌∷◌ heads (has_prefix-cut s p tails)

has_prefix-append : (p x : Bytes) → has_prefix (p ++ x) p ≡ true
unfolding has_prefix
has_prefix-append [] x = refl
has_prefix-append (c ∷ p) x = ground (arith, has_prefix-append p x)

-- One prefix that is cut off if it is there.
cut_off :
    (p s : Bytes)
    → let s' = if has_prefix s p then drop (length p) s else s in
      (q : Bytes) × (s ≡ q ++ s') × ((q ≡ p) ⊎ ((q ≡ []) × ((x : Bytes) → s ≢ p ++ x)))
cut_off p s = elim (Bool-cases (has_prefix s p)) [
  | inl h ↦ rw h (p, has_prefix-cut s p h, inl refl)
  | inr h ↦ rw h (
    [],
    refl,
    inr (
      refl,
      λ x e. absurd (let clash : has_prefix s p ≡ true = rw e (has_prefix-append p x) in cc),
    ),
  )
]

trim_message-IsTrimmed : (text : Bytes) → IsTrimmed text (trim_message text)
unfolding trim_message
trim_message-IsTrimmed text =
    let body = if has_prefix text (bytes " ") then drop 1 text else text in
    let (space, e, spaced) = cut_off (bytes " ") text in
    let (mark, e', marked) = cut_off byte_order_mark body in
    record {
      space = space;
      mark = mark;
      splits = e ∙ ap (λ t. space ++ t) e';
      spaced = spaced;
      marked = elim marked [
        | inl e ↦ inl e
        | inr (e, no_mark) ↦ inr (e, λ x h. no_mark x (e' ∙ rw e h))
      ];
    }

pid_of_procid_number :
    (procid : Bytes)
    → 1 ≤ length procid
    → Digits procid
    → value procid < 2 ^ 63
    → pid_of_procid procid ≡ pos (value procid)
unfolding pid_of_procid
pid_of_procid_number procid one ds small = elim (Bool-cases (equal procid (bytes "-"))) [
  | inl d ↦
      let same : procid ≡ bytes "-" = (equal_iff procid (bytes "-")).0 d in
      let ds' : Digits (bytes "-") = rw same at ds in absurd (ground arith)
  | inr d ↦ rw (d, atoi-Digits procid ds one small) refl
]

pid_of_procid_other :
    (procid : Bytes) → (procid ≡ bytes "-") ⊎ (atoi procid ≡ none) → pid_of_procid procid ≡ pos 0
unfolding pid_of_procid
pid_of_procid_other procid (inl e) = rw e refl
pid_of_procid_other procid (inr e) = elim (Bool-cases (equal procid (bytes "-"))) [
  | inl d ↦ rw d refl
  | inr d ↦ rw (d, e) refl
]

pub entry_of-IsEntry :
    (ts : Time) (facility severity : ℕ) (h : Header) (sd text : Bytes)
    → 1 ≤ length h.procid
    → severity < 8
    → IsEntry ts facility severity h sd text (entry_of ts facility severity h sd text)
unfolding sd_fields
entry_of-IsEntry ts facility severity h sd text one lt = record {
  timestamp_is = refl;
  level_is = severity_to_level_lem severity lt;
  facility_is = refl;
  hostname_is = nil_if_dash-IsValue h.host;
  process_is = nil_if_dash-IsValue h.app;
  pid_number = pid_of_procid_number h.procid one;
  pid_other = pid_of_procid_other h.procid;
  message_is = trim_message-IsTrimmed text;
  source_is = refl;
  no_data = λ e. ground (arith, equal_iff sd [], equal_iff sd (bytes "-"));
  data_is = λ some' other. ground (arith, equal_iff sd [], equal_iff sd (bytes "-"));
}

-- ===== src/Parser/Factories.antt =====
-- internal/parser: the constructors of the five parsers, and their registration by `init` (kmsg.go,
-- dmesg.go, syslog_bsd.go, syslog_rfc5424.go, journald.go). The time package, floating-point numbers
-- and /proc/uptime are arguments.
pub mod Registered
use blackboxd.Prelude.{
  ℕ, zero, suc, length, Bool, true, false, List, [], ◌∷◌, ◌++◌, Option, none, some, Result, ok, err,
  if◌then◌else◌, ◌>>=◌,
}
use blackboxd.Prelude.Int.{ℤ, pos, negsuc, ◌+ℤ◌, neg_ℤ, eqb_ℤ}
use blackboxd.Bytes.{Bytes, bytes, equal}
use blackboxd.Bytes.Maps.{get}
use blackboxd.Bytes.Text.{spaces, drop_prefix}
use blackboxd.Entry.{Time, zero_time, LogEntry, ParseError}
use blackboxd.Parser.KMsg
use blackboxd.Parser.SyslogBsd
use blackboxd.Parser.SyslogBsd.{SyslogBsd, Calendar}
use blackboxd.Parser.Rfc5424
use blackboxd.Parser.Journald
use blackboxd.Parser.Dmesg
use blackboxd.Parser.Dmesg.{Floats}
use blackboxd.Parser.Registry.{Panic, register}

-- A value of a parser's options, a `map[string]any`, by its dynamic type.
pub data Value : Type 0 where
  string_value : Bytes → Value
  int_value int64_value : ℤ → Value
  bool_value : Bool → Value
  other_value : Value

abbrev pub Options : Type 0
Options = List (Bytes × Value)

-- The interface `Parser`.
pub record Parser : Type 0 where
  pub name : Bytes
  pub parse : Bytes → Result ParseError LogEntry

-- The errors of the constructors.
pub data OptionError : Type 0 where
  bad_boot_time bad_timezone : OptionError

-- `time.Parse` at RFC 3339 with and without nanoseconds and at the form of dmesg, `time.Now` with its
-- year, `time.LoadLocation` and `time.Local` as calendars, and what /proc/uptime holds.
pub record Platform (F : Type 0) : Type 0 where
  pub parse_rfc3339_nano : Bytes → Option Time
  pub parse_rfc3339 : Bytes → Option Time
  pub parse_iso : Bytes → Option Time
  pub now : Time
  pub this_year : ℤ
  pub load_location : Bytes → Option Calendar
  pub local : Calendar
  pub floats : Floats F
  pub uptime : Option Bytes

-- `raw[key].(string)`, `raw[key].(bool)` and the year's `int` or `int64`.
abbrev pub as_string : Option Value → Option Bytes
as_string (some (string_value s)) = some s
as_string _ = none

abbrev pub as_bool : Option Value → Option Bool
as_bool (some (bool_value b)) = some b
as_bool _ = none

abbrev pub as_int : Option Value → Option ℤ
as_int (some (int_value n)) = some n
as_int (some (int64_value n)) = some n
as_int _ = none

abbrev pub or_else {ℓ} : {A : Type ℓ} → A → Option A → A
or_else d none = d
or_else d (some a) = a

-- `strings.Fields(s)[0]`, `none` where there is no field: the bytes in front of white space, with the
-- bytes read so far.
unfoldable pub until_space : Bytes → Bytes → Bytes
until_space [] field = field
until_space (c ∷ cs) field = elim (drop_prefix spaces (c ∷ cs)) [
  | none ↦ until_space cs (field ++ (c ∷ []))
  | some rest ↦ field
]

unfoldable pub first_field : ℕ → Bytes → Option Bytes
first_field n [] = none
first_field zero (c ∷ cs) = none
first_field (suc n) (c ∷ cs) = elim (drop_prefix spaces (c ∷ cs)) [
  | none ↦ some (until_space (c ∷ cs) [])
  | some rest ↦ first_field n rest
]

module _ {F : Type 0} (platform : Platform F) where
  unfoldable pub boot_of_seconds : Option F → Time
  boot_of_seconds none = zero_time
  boot_of_seconds (some secs) =
      platform.now
      +ℤ neg_ℤ
          (platform.floats.to_int (platform.floats.times secs (platform.floats.of_int 1000000000)))

  unfoldable pub boot_of_field : Option Bytes → Time
  boot_of_field none = zero_time
  boot_of_field (some field) = boot_of_seconds (platform.floats.parse_float field)

  -- `readBootTime`. A round that finds white space takes a byte at least.
  unfoldable pub read_boot_time : Option Bytes → Time
  read_boot_time none = zero_time
  read_boot_time (some text) = boot_of_field (first_field (length text) text)

  -- `if bt.IsZero() { bt = readBootTime() }`.
  unfoldable pub boot_or_read : Time → Time
  boot_or_read bt = if eqb_ℤ bt zero_time then read_boot_time platform.uptime else bt

  -- The option `boot_time` of `newKMsg` and `newDmesg`.
  unfoldable pub boot_option : Option Bytes → Result OptionError Time
  boot_option none = ok zero_time
  boot_option (some v) =
      if equal v []
      then ok zero_time
      else elim (platform.parse_rfc3339_nano v) [ none ↦ err bad_boot_time | some t ↦ ok t ]

  -- `NewKMsg` and `newKMsg`.
  unfoldable pub make_kmsg : Time → Parser
  make_kmsg bt = record { name = bytes "kmsg"; parse = KMsg.parse (boot_or_read bt) }

  unfoldable pub new_kmsg : Options → Result OptionError Parser
  new_kmsg raw = boot_option (as_string (get (bytes "boot_time") raw)) >>= λ bt. ok (make_kmsg bt)

  -- `NewDmesg` and `newDmesg`.
  unfoldable pub make_dmesg : Time → Parser
  make_dmesg bt = record {
    name = bytes "dmesg";
    parse = Dmesg.parse platform.floats platform.parse_iso (boot_or_read bt);
  }

  unfoldable pub new_dmesg : Options → Result OptionError Parser
  new_dmesg raw = boot_option (as_string (get (bytes "boot_time") raw)) >>= λ bt. ok (make_dmesg bt)

  -- `SyslogBSDConfig`.
  pub record SyslogBsdConfig : Type 0 where
    pub config_year : ℤ
    pub timezone : Bytes
    pub config_strict : Bool

  -- The location of a time zone's name.
  unfoldable pub location : Bytes → Result OptionError Calendar
  location zone =
      if equal zone []
      then ok platform.local
      else elim (platform.load_location zone) [ none ↦ err bad_timezone | some c ↦ ok c ]

  -- `NewSyslogBSD`.
  unfoldable pub new_syslog_bsd_of : SyslogBsdConfig → Result OptionError Parser
  new_syslog_bsd_of cfg = location cfg.timezone >>= λ calendar. ok (record {
    name = bytes "syslog_bsd";
    parse = SyslogBsd.parse (record {
      default_year = if eqb_ℤ cfg.config_year (pos 0) then platform.this_year else cfg.config_year;
      calendar = calendar;
      strict = cfg.config_strict;
    });
  })

  -- `newSyslogBSD`.
  unfoldable pub new_syslog_bsd : Options → Result OptionError Parser
  new_syslog_bsd raw = new_syslog_bsd_of (record {
    config_year = or_else (pos 0) (as_int (get (bytes "default_year") raw));
    timezone = or_else [] (as_string (get (bytes "timezone") raw));
    config_strict = or_else false (as_bool (get (bytes "strict") raw));
  })

  -- `newSyslogRFC5424` and `newJournald`.
  unfoldable pub new_syslog_rfc5424 : Options → Result OptionError Parser
  new_syslog_rfc5424 raw =
      ok (record { name = bytes "syslog_rfc5424"; parse = Rfc5424.parse platform.parse_rfc3339 })

  unfoldable pub new_journald : Options → Result OptionError Parser
  new_journald raw = ok (record { name = bytes "journald"; parse = Journald.parse })

  abbrev pub Factories : Type 0
  Factories = List (Bytes × (Options → Result OptionError Parser))

  -- The calls of `Register`, in the order in which the files of the package stand.
  unfoldable pub register_all : Result Panic Factories
  register_all =
      register (bytes "dmesg") (some new_dmesg) []
      >>= register (bytes "journald") (some new_journald)
      >>= register (bytes "kmsg") (some new_kmsg)
      >>= register (bytes "syslog_bsd") (some new_syslog_bsd)
      >>= register (bytes "syslog_rfc5424") (some new_syslog_rfc5424)

-- ===== src/Tests/Parser.antt =====
-- Levels and the parsers of internal/parser at fixed inputs.
use blackboxd.Parser.Factories.{Platform, make_kmsg, new_kmsg, boot_option}
use blackboxd.Parser.Factories.Registered.{registered, register_all_lem, IsType, build-IsType}
use blackboxd.Parser.Registry.{build}
use blackboxd.Bytes.Maps.{get}
use blackboxd.Prelude.{
  true, ℕ, ◌*◌, ◌≡◌, false, some, ◌+◌, ◌*◌, none, ◌↔◌, refl, inl, [], ok, if◌then◌else◌, arith,
}
use blackboxd.Prelude.Int.{pos, pos_part}
use blackboxd.Bytes.{equal, trim_left, Bytes, bytes}
use blackboxd.Entry.{zero_time, LogEntry}
use blackboxd.Parser.Common.{parse_priority_field, trim_trailing_newline}
use blackboxd.Parser.Common.Priority.{IsPriority, parse_priority_field_iff}
use blackboxd.Parser.KMsg
use blackboxd.Parser.SyslogBsd
use blackboxd.Parser.SyslogBsd.Messages
use blackboxd.Parser.SyslogBsd.Messages.{split_tag_and_message-IsTag, parse-Stamp}
use blackboxd.Parser.Rfc5424
use blackboxd.Parser.Rfc5424.Messages.{AreTokens, parse-AreTokens}
use blackboxd.Parser.Rfc5424.Entries.{Header}
use blackboxd.Parser.Rfc5424.Entries
use blackboxd.Parser.KMsg.Records
use blackboxd.Parser.Rfc5424.StructuredData.{read_structured_data}
use blackboxd.Parser.KMsg.Records.{IsHeader, parse-IsHeader}

parse_priority_field_iff_example :
    (parse_priority_field (bytes "<34>su") ≡ ok (bytes "su", 4, 2))
    ↔ IsPriority (bytes "<34>su") (bytes "su") 4 2
parse_priority_field_iff_example = parse_priority_field_iff (bytes "<34>su") (bytes "su") 4 2

priority_test : parse_priority_field (bytes "<34>su") ≡ ok (bytes "su", 4, 2)
unfolding parse_priority_field
priority_test = refl

-- A record of the kernel's log.
abbrev record_line : Bytes
record_line = bytes "6,339,5140900,-;NET: ready"

record_line-IsHeader :
    IsHeader (bytes "6,339,5140900,-") (bytes "6") (bytes "339") (bytes "5140900") (bytes "-")
record_line-IsHeader = record {
  more = [];
  splits = refl;
  more_fields = inl refl;
  pri_digits = ground arith;
  pri_some = omega arith;
  pri_in_range = omega arith;
  seq_no_comma = ground arith;
  usec_digits = ground arith;
  usec_some = omega arith;
  usec_in_range = omega arith;
  flag_no_comma = ground arith;
}

parse-IsHeader_example :
    (e : LogEntry) × (KMsg.parse (pos 100) record_line ≡ ok e)
    × KMsg.Records.IsEntry (pos 100) 6 5140900 (bytes "339") (bytes "-") (bytes "NET: ready") e
unfolding trim_trailing_newline
parse-IsHeader_example =
    parse-IsHeader (pos 100) record_line (bytes "6,339,5140900,-") (bytes "6") (bytes "339")
      (bytes "5140900") (bytes "-") (bytes "NET: ready") refl (ground arith) record_line-IsHeader

-- A message of RFC 5424 with no timestamp.
abbrev syslog_header : Header
syslog_header = record {
  version = bytes "1";
  stamp = bytes "-";
  host = bytes "box";
  app = bytes "su";
  procid = bytes "17";
  msgid = bytes "ID47";
}

syslog_header-AreTokens : AreTokens syslog_header
syslog_header-AreTokens = record {
  version_is = record { no_space = ground arith; not_empty = omega arith };
  stamp_is = record { no_space = ground arith; not_empty = omega arith };
  host_is = record { no_space = ground arith; not_empty = omega arith };
  app_is = record { no_space = ground arith; not_empty = omega arith };
  procid_is = record { no_space = ground arith; not_empty = omega arith };
  msgid_is = record { no_space = ground arith; not_empty = omega arith };
}

parse-AreTokens_example :
    (e : LogEntry) × (Rfc5424.parse (λ s. none) (bytes "<34>1 - box su 17 ID47 - failed") ≡ ok e)
    × Rfc5424.Entries.IsEntry zero_time 4 2 syslog_header (bytes "-") (bytes " failed") e
unfolding trim_trailing_newline parse_priority_field read_structured_data
parse-AreTokens_example =
    parse-AreTokens (λ s. none) (bytes "<34>1 - box su 17 ID47 - failed") 4 2 syslog_header
      (bytes "- failed") (bytes "-") (bytes " failed") zero_time
      ((parse_priority_field_iff _ _ 4 2).0 refl) syslog_header-AreTokens (inl (refl, refl)) refl

-- A calendar that reads one timestamp, and a line of BSD syslog with it.
abbrev stamp_text : Bytes
stamp_text = bytes "Oct 11 22:14:15"

abbrev october : SyslogBsd.Stamp
october = record { month = 10; day = 11; hour = 22; minute = 14; second = 15 }

abbrev bsd_parser : SyslogBsd.SyslogBsd
bsd_parser = record {
  default_year = pos 2024;
  strict = false;
  calendar = record {
    parse_stamp = λ s. if equal s stamp_text then some october else none;
    date = λ year stamp. pos (pos_part year * 1000 + stamp.month);
  };
}

split_tag_and_message-IsTag_example :
    SyslogBsd.split_tag_and_message (bytes "su[42]: failed") ≡ (bytes "su", pos 42, bytes "failed")
unfolding trim_left
split_tag_and_message-IsTag_example =
    split_tag_and_message-IsTag (bytes "su") (bytes "42") (bytes "failed") (ground arith)
      (ground arith) (omega arith) (omega arith) refl

parse-Stamp_example :
    SyslogBsd.parse bsd_parser (bytes "<34>Oct 11 22:14:15 box su[42]: failed")
    ≡ ok (Messages.entry_of (pos 2024010) 4 2 (bytes "box") (bytes "su") (pos 42) (bytes "failed"))
unfolding trim_trailing_newline parse_priority_field equal
parse-Stamp_example =
    parse-Stamp bsd_parser (bytes "<34>Oct 11 22:14:15 box su[42]: failed") 4 2 stamp_text
      (bytes "box") (bytes "su[42]: failed") (bytes "su") (bytes "failed") october (pos 42)
      ((parse_priority_field_iff _ _ 4 2).0 refl) refl refl (ground arith) (omega arith)
      split_tag_and_message-IsTag_example

-- A platform whose floating-point numbers are natural numbers.
abbrev platform : Platform ℕ
platform = record {
  parse_rfc3339_nano = λ s. some (pos 100);
  parse_rfc3339 = λ s. none;
  parse_iso = λ s. none;
  now = pos 1000;
  this_year = pos 2026;
  load_location = λ s. none;
  local = bsd_parser.calendar;
  floats = record {
    parse_float = λ s. none;
    of_int = λ n. n;
    less = λ a b. false;
    same = λ a b. true;
    times = λ a b. a * b;
    to_int = λ n. pos n;
  };
  uptime = none;
}

build-IsType_example : IsType platform (bytes "kmsg") × (bytes "kmsg" ≡ bytes "kmsg")
unfolding build get equal new_kmsg boot_option make_kmsg
build-IsType_example =
    build-IsType platform (registered platform) (bytes "kmsg") [] (make_kmsg platform zero_time)
      (register_all_lem platform) refl

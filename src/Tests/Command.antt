-- ===== src/Tests/Command.antt =====
-- The commands of cmd/blackboxd at fixed inputs.
use blackboxd.Prelude.{ℕ, ◌≡◌, ◌↔◌, true, false, [], ◌∷◌, none, some}
use blackboxd.Prelude.Int.{pos}
use blackboxd.Bytes.{bytes}
use blackboxd.Oneshot.Dump.{exit_ok}
use blackboxd.Command.{Flags, Host, dispatch}
use blackboxd.Command.Exits.{IsValidated, dispatch-validate_iff}

-- A host with no file, and flags that read every argument as a path.
abbrev bare_host : Host ℕ
bare_host = record {
  toml = record { decode = λ text. none; decode_parsers = λ text. none; as_string = λ v. none };
  fs = record { lstat = λ p. none; stat = λ p. none; euid = 0 };
  read_file = λ p. none;
  known = [];
  clock = record {
    parse_duration = λ s. none;
    parse_rfc3339 = λ s. none;
    format_rfc3339 = λ t. [];
    now = pos 0;
  };
  parsers = record {
    syslog_bsd = none;
    syslog_rfc5424 = none;
    kmsg = none;
    dmesg = none;
    journald = none;
  };
  system = record {
    open_file = λ p. none;
    capture = λ args. none;
    dmesg = none;
    output_opens = true;
    write_fails = λ n. false;
  };
  opens = λ p. true;
  valid_string = λ s. true;
  to_valid_utf8 = λ s. s;
}

abbrev plain_flags : Flags
plain_flags = record {
  parse_service = λ args. some (bytes "/etc/blackboxd/blackboxd.toml");
  parse_dump = λ args. none;
  parse_validate = λ args. some (record { skip_fs_checks = false; args = args });
}

dispatch-validate_iff_example :
    (dispatch bare_host plain_flags (bytes "validate" ∷ bytes "/etc/a.toml" ∷ []) ≡ ([], exit_ok))
    ↔ IsValidated bare_host (plain_flags.parse_validate (bytes "/etc/a.toml" ∷ []))
dispatch-validate_iff_example =
    dispatch-validate_iff bare_host plain_flags (bytes "/etc/a.toml" ∷ [])

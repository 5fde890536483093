-- ===== src/Tests/Source.antt =====
-- The line reading of internal/source/file.go at fixed inputs.
use blackboxd.Prelude.{
  All, ℕ, zero, suc, ◌+◌, ◌<◌, ◌≡◌, refl, false, [], ◌∷◌, ◌++◌, length, replicate, true, List, some,
  Result, ok, length-replicate, drop, arith,
}
use blackboxd.Bytes.{Bytes, bytes, equal}
use blackboxd.Prelude.Int.{pos}
use blackboxd.Source.KMsg.{run_device, emit_device_record, again, overrun, failure, device_record}
use blackboxd.Source.Journal.{
  argv, unit_args, priority_args, directory_args, JournalSourceConfig, consume, emit_records,
}
use blackboxd.Source.Journal.Records.{IsRecord, record_texts, export_text, consume-IsRecord}
use blackboxd.Entry.{LogEntry, empty_entry, ParseError}
use blackboxd.Source.File.{
  sanitize_utf8, FileConfig, FileSource, drain, drained, open_initial, persist_offset,
}
use blackboxd.Source.File.Drain.{join_lines, entries_of, drain_lines}
use blackboxd.Source.File.Restart.{restart_resumes}
use blackboxd.Bytes.Laws.{Lacks}
use blackboxd.Source.Reader.{Reader, line, read_line, buffer_size, max_discard}
use blackboxd.Source.Reader.Lines.{read_line_offset, read_line_short}
use blackboxd.Source.Reader.LongLines.{read_line_long, read_line_overlong}

abbrev reader : Bytes → Reader
reader s = record { unread = s; broken = false; offset = 10 }

abbrev two_lines : Bytes
two_lines = bytes "one" ++ (b'\n' ∷ bytes "two")

-- 16 bytes and 4 more in one line, and a next one.
abbrev long_line : Bytes
long_line = bytes "0123456789abcdef" ++ (bytes "tail" ++ (b'\n' ∷ bytes "two"))

read_line-two_lines : read_line 16 (reader two_lines) ≡ (
  line (bytes "one" ++ (b'\n' ∷ [])),
  record (reader two_lines) { unread = bytes "two"; offset = 10 + (3 + 1) },
)
unfolding buffer_size
read_line-two_lines =
    read_line_short 16 (reader two_lines) (bytes "one") (bytes "two") refl (ground arith)
      (omega arith)

read_line_offset_example :
    (read_line 16 (reader two_lines)).1.offset + length (read_line 16 (reader two_lines)).1.unread
    ≡ (reader two_lines).offset + length (reader two_lines).unread
read_line_offset_example =
    read_line_offset 16 (reader two_lines) (rw read_line-two_lines (λ e. absurd (cc)))

read_line_long_example : read_line 16 (reader long_line) ≡ (
  line (bytes "0123456789abcdef" ++ (b'\n' ∷ [])),
  record (reader long_line) { unread = bytes "two"; offset = 10 + 16 + (0 + 4 + 1) },
)
unfolding buffer_size
read_line_long_example =
    read_line_long 16 (reader long_line) (bytes "0123456789abcdef") (bytes "tail") (bytes "two")
      refl (ground arith) (ground arith) (omega arith) (omega arith)

-- A line of any length, without its newline.
unfoldable endless : ℕ → Bytes
endless n = replicate n b'x'

endless-Lacks : (n : ℕ) → Lacks b'\n' (endless n)
unfolding endless
endless-Lacks zero = tt
endless-Lacks (suc n) = (ground arith, endless-Lacks n)

length-endless : (n : ℕ) → length (endless n) ≡ n
unfolding endless
length-endless n = length-replicate n b'x'

read_line_overlong_example :
    let (l, r) = read_line 16 (reader (endless 16 ++ endless (max_discard + 16))) in
    (l ≡ line (endless 16 ++ (b'\n' ∷ [])))
    × ((k : ℕ) × (r.unread ≡ drop k (endless (max_discard + 16)))
        × (k < max_discard + buffer_size 16))
unfolding buffer_size
read_line_overlong_example =
    read_line_overlong 16 (reader (endless 16 ++ endless (max_discard + 16))) (endless 16)
      (endless (max_discard + 16)) refl (endless-Lacks 16) (endless-Lacks (max_discard + 16))
      (length-endless 16) (omega (arith, length-endless (max_discard + 16)))

-- A tailer with a store, a parser that takes every line for its message, and a file of two lines.
abbrev config : FileConfig
config = record {
  name = bytes "file";
  path = bytes "/var/log/x";
  from_beginning = false;
  follow_symlinks = false;
  max_line = 16;
  offsets = true;
}

abbrev plain_parser : Bytes → Result ParseError LogEntry
plain_parser s = ok (record empty_entry { message = s })

abbrev file_lines : List Bytes
file_lines = bytes "one" ∷ bytes "two" ∷ []

drain_lines_example :
    drain plain_parser (λ s. true) (λ s. s) 3 config (reader (join_lines file_lines)) ≡ (
      entries_of plain_parser (λ s. true) (λ s. s) config file_lines,
      drained,
      record (reader (join_lines file_lines)) { unread = []; offset = 18 },
    )
unfolding buffer_size
drain_lines_example =
    drain_lines plain_parser (λ s. true) (λ s. s) 3 config (reader (join_lines file_lines))
      file_lines refl refl (ground arith) (omega arith)

-- A source that has read the first line.
abbrev tailer : FileSource
tailer = record {
  cur_ino = 7;
  reader = record { unread = bytes "two\n"; broken = false; offset = 4 };
}

restart_resumes_example :
    open_initial config
      (some false)
      (some (record { inode = 7; content = bytes "one\ntwo\n" ++ bytes "three\n"; broken = false }))
      (persist_offset config tailer)
    ≡ ok (record {
      cur_ino = 7;
      reader = record { unread = bytes "two\nthree\n"; broken = false; offset = 4 };
    })
restart_resumes_example =
    restart_resumes config tailer (bytes "one\ntwo\n") (bytes "three\n") false refl refl
      (λ e. absurd (omega (arith, e))) (omega arith) refl

-- An export of two records.
abbrev two_records : List (List Bytes)
two_records = (bytes "A=1" ∷ bytes "B=2" ∷ []) ∷ (bytes "A=3" ∷ []) ∷ []

abbrev journal_config : JournalSourceConfig
journal_config = record {
  name = bytes "journal";
  has_parser = true;
  path = [];
  units = bytes "sshd" ∷ [];
  min_priority = pos 0;
  from_beginning = true;
  binary = bytes "journalctl";
}

abbrev any_record : Bytes → Result ParseError LogEntry
any_record s = ok (record empty_entry { message = s })

two_records_lem : All IsRecord two_records
unfolding equal
two_records_lem = ground arith

consume-IsRecord_example :
    consume any_record (λ s. true) (λ s. s) journal_config 9 (export_text two_records) false ≡ (
      emit_records any_record (λ s. true) (λ s. s) (bytes "journal") (record_texts two_records),
      true,
    )
consume-IsRecord_example =
    consume-IsRecord any_record (λ s. true) (λ s. s) journal_config 9 two_records two_records_lem
      (omega arith)

argv_test : argv journal_config ≡ bytes "-o" ∷ bytes "export" ∷ bytes "--unit" ∷ bytes "sshd" ∷ []
unfolding argv unit_args priority_args directory_args equal
argv_test = refl

run_device_test :
    run_device any_record
      (λ s. true)
      (λ s. s)
      (bytes "kmsg")
      (again ∷ device_record (bytes "6,1,2,-;x") ∷ overrun ∷ failure ∷ [])
    ≡ (record empty_entry { message = bytes "6,1,2,-;x"; source = bytes "kmsg" } ∷ [], false)
unfolding run_device emit_device_record sanitize_utf8
run_device_test = refl

-- ===== src/Tests/Oneshot.antt =====
-- The one-shot merge of internal/oneshot at fixed inputs.
use blackboxd.Oneshot.Closing.{
  Output, gzip_writer, output_file, Call, flushing, closing, open_output, zip_output, close_output,
  calls_for, first_failing, close_output-open_output,
}
use blackboxd.Prelude.{
  Bool, if◌then◌else◌, ◌||◌, arith, length, refl, ◌≡◌, ℕ, false, List, [], ◌∷◌, Option, none, some,
  ok, ◌++◌, All, true,
}
use blackboxd.Prelude.Int.{pos}
use blackboxd.Entry.{LogEntry, empty_entry, zero_time}
use blackboxd.Bytes.{bytes, equal}
use blackboxd.Oneshot.Dump.{Clock, Parser, Parsers, System, DumpFlags, run_dump}
use blackboxd.Oneshot.Dump.Output.{run_dump-InBounds}
use blackboxd.Oneshot.Dump.Bounds.{InBounds}
use blackboxd.Oneshot.Heap
use blackboxd.Oneshot.Merge.Rounds.{merge_ends}
use blackboxd.Oneshot.Merge.{
  cursors, remaining, merge_loop, read_cursor, cursor_of, sort_entries, insert_entry, Filter,
  MergeOptions, merge,
}
use blackboxd.Oneshot.Merge.Sorted.{IsMerge, entries_read, merge-IsMerge}

abbrev at : ℕ → LogEntry
at n = record empty_entry { timestamp = pos n }

abbrev no_filter : Filter
no_filter = record { since = zero_time; until = zero_time }

abbrev three_lines : MergeOptions
three_lines = record { max_lines = pos 3; filter = no_filter }

-- Two sources, with one that fails between them.
abbrev three_sources : List (Filter → Option (List LogEntry))
three_sources = (λ f. some (at 5 ∷ at 2 ∷ [])) ∷ (λ f. none) ∷ (λ f. some (at 3 ∷ [])) ∷ []

merge-IsMerge_example :
    IsMerge 3
      (λ n. false)
      (entries_read no_filter three_sources)
      (merge (λ n. false) three_sources three_lines).0
      (merge (λ n. false) three_sources three_lines).1
merge-IsMerge_example = merge-IsMerge (λ n. false) three_sources three_lines

three_left : length (remaining (cursors no_filter three_sources)) ≡ 3
unfolding cursors remaining read_cursor cursor_of sort_entries insert_entry
three_left = refl

merge_ends_example :
    merge_loop 9 3 (λ n. false) 0 (Heap.init (cursors no_filter three_sources))
    ≡ merge (λ n. false) three_sources three_lines
merge_ends_example =
    merge_ends (λ n. false) three_sources three_lines 9 (rw three_left (omega arith))

-- A dump of two syslog files and the journal, from a time on.
abbrev clock : Clock
clock = record {
  parse_duration = λ s. none;
  parse_rfc3339 = λ s. some (pos 3);
  format_rfc3339 = λ t. bytes "3";
  now = pos 9;
}

-- A parser whose entry has the length of the line for its time.
abbrev any_line : Parser
any_line s = ok (record empty_entry { timestamp = pos (length s); message = s })

abbrev parsers : Parsers
parsers = record {
  syslog_bsd = some any_line;
  syslog_rfc5424 = some any_line;
  kmsg = none;
  dmesg = none;
  journald = some any_line;
}

abbrev system : System
system = record {
  open_file = λ p. some (bytes "a" ++ (b'\n' ∷ bytes "four"));
  capture = λ args. some (bytes "K=5" ++ (b'\n' ∷ b'\n' ∷ bytes "K"));
  dmesg = none;
  output_opens = true;
  write_fails = λ n. false;
}

abbrev flags : DumpFlags
flags = record {
  kmsg = false;
  dmesg = false;
  journal = false;
  journal_units = bytes "sshd" ∷ [];
  bsd_files = bytes "/var/log/a" ∷ bytes "/var/log/b" ∷ [];
  rfc5424_files = [];
  since = bytes "2026";
  until = [];
  max_lines = pos 0;
}

run_dump-InBounds_example :
    All (InBounds clock flags) (run_dump (λ s. true) (λ s. s) clock parsers system flags).0
run_dump-InBounds_example = run_dump-InBounds (λ s. true) (λ s. s) clock parsers system flags

-- A compressed dump to a file.
abbrev zipped_file : Output
zipped_file = record {
  file = some (bytes "/tmp/out");
  zipped = true;
  closers = gzip_writer ∷ output_file ∷ [];
}

abbrev is_closing : Call → Bool
is_closing flushing = false
is_closing (closing c) = true

close_output-open_output_example :
    (zipped_file.zipped ≡ true)
    × (zipped_file.file ≡ (
        if equal (bytes "/tmp/out") [] || equal (bytes "/tmp/out") (bytes "-")
        then none
        else some (bytes "/tmp/out")))
    × (close_output is_closing zipped_file
        ≡ (calls_for zipped_file, first_failing is_closing (calls_for zipped_file)))
unfolding open_output zip_output equal
close_output-open_output_example =
    close_output-open_output (λ p. true) (bytes "/tmp/out") true zipped_file is_closing refl

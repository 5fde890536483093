-- ===== src/Oneshot/Dump/Output.antt =====
-- What a dump writes.
use blackboxd.Prelude.{
  ◌≡◌, Bool, List, [], ◌∷◌, All, All-map, ok, Result-cases, Bool-cases, inl, inr,
}
use blackboxd.Prelude.Int.{ℤ}
use blackboxd.Bytes.{Bytes}
use blackboxd.Oneshot.Merge.{Filter}
use blackboxd.Oneshot.Sources.Filtered.{
  Passes, IsFiltered, read_file-IsFiltered, read_dmesg-IsFiltered, read_journal-IsFiltered,
  merge-Passes,
}
use blackboxd.Oneshot.Dump.Bounds.{InBounds, Passes-InBounds}
use blackboxd.Oneshot.Dump.{
  Clock, Parsers, System, DumpFlags, DumpSource, file_source, dmesg_source, journal_source, read_of,
  reads_of, dump_sources, run_dump, build_oneshot_filter, build_oneshot_sources,
}

module _ (valid_string : Bytes → Bool) (to_valid_utf8 : Bytes → Bytes) where
  read_of-IsFiltered :
      (sys : System) (s : DumpSource) → IsFiltered (read_of valid_string to_valid_utf8 sys s)
  unfolding read_of
  read_of-IsFiltered sys (file_source label path parser) =
      read_file-IsFiltered parser valid_string to_valid_utf8 label path (sys.open_file path)
  read_of-IsFiltered sys (dmesg_source parser) =
      read_dmesg-IsFiltered parser valid_string to_valid_utf8 sys.dmesg
  read_of-IsFiltered sys (journal_source j parser) =
      read_journal-IsFiltered parser valid_string to_valid_utf8 sys.capture j

  reads_of-IsFiltered :
      (sys : System) (ss : List DumpSource)
      → All IsFiltered (reads_of valid_string to_valid_utf8 sys ss)
  unfolding reads_of
  reads_of-IsFiltered sys [] = tt
  reads_of-IsFiltered sys (s ∷ ss) = (read_of-IsFiltered sys s, reads_of-IsFiltered sys ss)

  dump_sources-Passes :
      (sys : System) (max_lines : ℤ) (f : Filter) (ss : List DumpSource)
      → All (Passes f) (dump_sources valid_string to_valid_utf8 sys max_lines f ss).0
  unfolding dump_sources
  dump_sources-Passes sys max_lines f [] = tt
  dump_sources-Passes sys max_lines f (s ∷ ss) = elim (Bool-cases sys.output_opens) [
    | inl e ↦ simp e (
        merge-Passes sys.write_fails _ (record { max_lines = max_lines; filter = f })
          (reads_of-IsFiltered sys (s ∷ ss)))
    | inr e ↦ simp e tt
  ]

  run_dump-Passes :
      (clock : Clock) (ps : Parsers) (sys : System) (flags : DumpFlags) (f : Filter)
      → build_oneshot_filter clock flags.since flags.until ≡ ok f
      → All (Passes f) (run_dump valid_string to_valid_utf8 clock ps sys flags).0
  unfolding run_dump
  run_dump-Passes clock ps sys flags f h =
      elim (Result-cases (build_oneshot_sources clock ps flags f)) [
        | inl (ss, e) ↦ rw (h, run_dump, e) (dump_sources-Passes sys flags.max_lines f ss)
        | inr (c, e) ↦ rw (h, run_dump, e) tt
      ]

  -- No entry that a dump writes is before the time of its lower bound, be it a duration before now
  -- or a time, or after that of its upper bound, if the bound is given and is not the zero time,
  -- whatever its sources are, what they give and which writes fail.
  pub run_dump-InBounds :
      (clock : Clock) (ps : Parsers) (sys : System) (flags : DumpFlags)
      → All (InBounds clock flags) (run_dump valid_string to_valid_utf8 clock ps sys flags).0
  unfolding run_dump
  run_dump-InBounds clock ps sys flags =
      elim (Result-cases (build_oneshot_filter clock flags.since flags.until)) [
        | inl (f, e) ↦
            All-map (Passes f) (InBounds clock flags) (Passes-InBounds clock flags f e) _
              (run_dump-Passes clock ps sys flags f e)
        | inr (c, e) ↦ rw (e, run_dump) tt
      ]

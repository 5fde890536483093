-- ===== src/Oneshot/Sources/Filtered.antt =====
-- The filter of a dump: no source gives an entry that it does not pass.
use mathlib.Core.List.Perm
use blackboxd.Prelude.{
  All-append, ℕ, zero, suc, ◌≡◌, refl, sym, ap, ◌∙◌, inl, inr, Bool, true, ◌&&◌, List, [], ◌∷◌, All,
  take, Option, none, some, Result, Bool-cases, Result-cases, Option-cases, arith, subst,
}
use blackboxd.Prelude.Int.{eqb_ℤ}
use blackboxd.Bytes.{Bytes}
use blackboxd.Entry.{LogEntry, ParseError, zero_time}
use blackboxd.Source.File.{sanitize_utf8}
use blackboxd.Oneshot.Merge.{Filter, passes, MergeOptions, merge}
use blackboxd.Oneshot.Merge.Advance.{All-perm}
use blackboxd.Oneshot.Merge.Sorted.{given, entries_read, merge-IsMerge}
use blackboxd.Oneshot.Sources.{
  JournalSource, DmesgRun, journal_args, named, kept_entry, kept_entries, read_file, read_journal,
  run_dmesg, passing, read_dmesg,
}

abbrev pub Passes : Filter → LogEntry → Type 0
Passes f e = passes f e.timestamp ≡ true

-- A source gives nothing that the filter does not let pass.
abbrev pub IsFiltered : (Filter → Option (List LogEntry)) → Type 0
IsFiltered read = (f : Filter) → All (Passes f) (given (read f))

Passes-zero :
    (f : Filter) (e : LogEntry)
    → (eqb_ℤ f.since zero_time && eqb_ℤ f.until zero_time) ≡ true
    → Passes f e
unfolding passes
Passes-zero f e h = ground arith

all_pass :
    (f : Filter) (es : List LogEntry)
    → (eqb_ℤ f.since zero_time && eqb_ℤ f.until zero_time) ≡ true
    → All (Passes f) es
all_pass f [] h = tt
all_pass f (e ∷ es) h = (Passes-zero f e h, all_pass f es h)

passing-All : (f : Filter) (es : List LogEntry) → All (Passes f) (passing f es)
unfolding passing
passing-All f [] = tt
passing-All f (e ∷ es) = elim (Bool-cases (passes f e.timestamp)) [
  | inl h ↦ rw h (h, passing-All f es)
  | inr h ↦ rw h (passing-All f es)
]

module _ (parser : Bytes → Result ParseError LogEntry) (valid_string : Bytes → Bool)
    (to_valid_utf8 : Bytes → Bytes) where
  named_time :
      (name : Bytes) (e : LogEntry)
      → (named parser valid_string to_valid_utf8 name e).timestamp ≡ e.timestamp
  unfolding named sanitize_utf8
  named_time name e = elim (Bool-cases (valid_string e.message)) [
    | inl v ↦ rw v refl
    | inr v ↦ rw v refl
  ]

  kept_entry-All :
      (f : Filter) (name text : Bytes)
      → All (Passes f) (kept_entry parser valid_string to_valid_utf8 f name text)
  unfolding kept_entry
  kept_entry-All f name text = elim (Result-cases (parser text)) [
    | inl (e, p) ↦ elim (Bool-cases (passes f e.timestamp)) [
      | inl h ↦ rw (p, kept_entry, h) ((ap (λ t. passes f t) (named_time name e) ∙ h), tt)
      | inr h ↦ rw (p, kept_entry, h) tt
    ]
    | inr (e, p) ↦ rw (p, kept_entry) tt
  ]

  kept_entries-All :
      (f : Filter) (name : Bytes) (ts : List Bytes)
      → All (Passes f) (kept_entries parser valid_string to_valid_utf8 f name ts)
  unfolding kept_entries
  kept_entries-All f name [] = tt
  kept_entries-All f name (t ∷ ts) =
      All-append (Passes f) _ _ (kept_entry-All f name t) (kept_entries-All f name ts)

  pub read_file-IsFiltered :
      (label path : Bytes) (opened : Option Bytes)
      → IsFiltered (read_file parser valid_string to_valid_utf8 label path opened)
  unfolding read_file
  read_file-IsFiltered label path none f = tt
  read_file-IsFiltered label path (some text) f = kept_entries-All f _ _

  pub read_journal-IsFiltered :
      (capture : List Bytes → Option Bytes) (j : JournalSource)
      → IsFiltered (read_journal parser valid_string to_valid_utf8 capture j)
  unfolding read_journal
  read_journal-IsFiltered capture j f = elim (Option-cases (capture (journal_args j))) [
    | inl e ↦ rw (e, read_journal) tt
    | inr (out, e) ↦ rw (e, read_journal) (kept_entries-All f _ _)
  ]

  pub read_dmesg-IsFiltered :
      (run : Option DmesgRun) → IsFiltered (read_dmesg parser valid_string to_valid_utf8 run)
  unfolding read_dmesg
  read_dmesg-IsFiltered run f =
      let (entries, good) = run_dmesg parser valid_string to_valid_utf8 run in
      elim (Bool-cases good) [
        | inr bad ↦ rw bad tt
        | inl fine ↦ elim (Bool-cases (eqb_ℤ f.since zero_time && eqb_ℤ f.until zero_time)) [
          | inl e ↦ rw (fine, e) (all_pass f entries e)
          | inr e ↦ rw (fine, e) (passing-All f entries)
        ]
      ]

entries_read-All :
    (f : Filter) (reads : List (Filter → Option (List LogEntry)))
    → All IsFiltered reads
    → All (Passes f) (entries_read f reads)
entries_read-All f [] h = tt
entries_read-All f (read ∷ reads) h =
    All-append (Passes f) (given (read f)) (entries_read f reads) (h.0 f)
      (entries_read-All f reads h.1)

take-All {ℓ κ} : {A : Type ℓ} (P : A → Type κ) (n : ℕ) (l : List A) → All P l → All P (take n l)
take-All P zero l h = tt
take-All P (suc n) [] h = tt
take-All P (suc n) (x ∷ l) h = (h.0, take-All P n l h.1)

-- What a merge of such sources writes passes its filter.
pub merge-Passes :
    (fails : ℕ → Bool) (reads : List (Filter → Option (List LogEntry))) (opts : MergeOptions)
    → All IsFiltered reads
    → All (Passes opts.filter) (merge fails reads opts).0
merge-Passes fails reads opts h =
    let m = merge-IsMerge fails reads opts in
    let whole =
      All-perm (Passes opts.filter) (λ e. hlevel) (Perm.symm m.same)
        (entries_read-All opts.filter reads h) in
    subst (All (Passes opts.filter)) (sym m.written.first)
      (take-All (Passes opts.filter) m.written.n m.whole whole)

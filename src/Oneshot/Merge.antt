-- ===== src/Oneshot/Merge.antt =====
-- internal/oneshot/oneshot.go: `Filter` and `Merge`. A source is its `Read`, `none` for an error; what
-- is written is the list of entries that were encoded, whose length is the number that is returned.
pub mod Advance
pub mod Written
pub mod Sorted
pub mod Rounds
use blackboxd.Prelude.{
  ℕ, zero, suc, ◌+◌, Bool, true, false, not, ◌&&◌, List, [], ◌∷◌, ◌++◌, Option, none, some, ltb,
  leb, ◌==◌, if◌then◌else◌, length,
}
use blackboxd.Prelude.Int.{ℤ, pos_part, eqb_ℤ}
use blackboxd.Entry.{Time, zero_time, before, LogEntry}
use blackboxd.Oneshot.Heap
use blackboxd.Oneshot.Heap.{Cursor}

-- `Filter`; a bound that is the zero time is none.
pub record Filter : Type 0 where
  pub since : Time
  pub until : Time

-- `Filter.Passes`.
unfoldable pub passes : Filter → Time → Bool
passes f ts =
    if not (eqb_ℤ f.since zero_time) && before ts f.since
    then false
    else if not (eqb_ℤ f.until zero_time) && before f.until ts
    then false
    else true

pub record MergeOptions : Type 0 where
  pub max_lines : ℤ
  pub filter : Filter

-- `sort.SliceStable` by time: an entry goes in front of the first one that is not before it.
unfoldable pub insert_entry : LogEntry → List LogEntry → List LogEntry
insert_entry x [] = x ∷ []
insert_entry x (y ∷ l) = if before y.timestamp x.timestamp then y ∷ insert_entry x l else x ∷ y ∷ l

unfoldable pub sort_entries : List LogEntry → List LogEntry
sort_entries [] = []
sort_entries (x ∷ l) = insert_entry x (sort_entries l)

-- A source's cursor, if it has entries.
unfoldable pub cursor_of : List LogEntry → List Cursor
cursor_of [] = []
cursor_of (e ∷ es) = record { head = e; later = es } ∷ []

unfoldable pub read_cursor : Option (List LogEntry) → List Cursor
read_cursor none = []
read_cursor (some es) = cursor_of (sort_entries es)

-- The first loop of `Merge`.
unfoldable pub cursors : Filter → List (Filter → Option (List LogEntry)) → List Cursor
cursors f [] = []
cursors f (read ∷ reads) = read_cursor (read f) ++ cursors f reads

-- `head.idx++`, and the `Pop` or `Fix` behind it.
unfoldable pub advance_root : LogEntry → List LogEntry → List Cursor → List Cursor
advance_root e [] cs = Heap.pop (record { head = e; later = [] } ∷ cs)
advance_root e (next ∷ later) cs = Heap.fix_root (record { head = next; later = later } ∷ cs)

-- All that the cursors still have to give.
unfoldable pub remaining : List Cursor → List LogEntry
remaining [] = []
remaining (c ∷ cs) = c.head ∷ (c.later ++ remaining cs)

-- The last loop of `Merge`, with the cap on the lines (0 for none) and the number written: what it
-- writes, and whether it returns nil. `fails` tells at which number of lines written an `Encode`
-- fails. Each round writes an entry, so one round more than there are entries is enough.
unfoldable pub merge_loop : ℕ → ℕ → (ℕ → Bool) → ℕ → List Cursor → List LogEntry × Bool
merge_loop zero limit fails written h = ([], true)
merge_loop (suc k) limit fails written [] = ([], true)
merge_loop (suc k) limit fails written (c ∷ cs) =
    let rest = merge_loop k limit fails (suc written) (advance_root c.head c.later cs) in
    if ltb 0 limit && leb limit written
    then ([], true)
    else if fails written
    then ([], false)
    else (c.head ∷ rest.0, rest.1)

-- `Merge`.
unfoldable pub merge :
    (ℕ → Bool) → List (Filter → Option (List LogEntry)) → MergeOptions → List LogEntry × Bool
merge fails reads opts =
    let h = cursors opts.filter reads in
    merge_loop (length (remaining h) + 1) (pos_part opts.max_lines) fails 0 (Heap.init h)

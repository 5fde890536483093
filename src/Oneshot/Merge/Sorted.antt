-- ===== src/Oneshot/Merge/Sorted.antt =====
-- What `Merge` writes.
use mathlib.Core.List.{Perm}
use mathlib.Core.List.Perm
use native.Mathlib.Bridge.{le_prop}
use blackboxd.Prelude.{
  ℕ, ◌+◌, ◌≡◌, refl, sym, inl, inr, subst, Bool, List, [], ◌∷◌, ◌++◌, Option, none, some, length,
  Bool-cases, arith,
}
use blackboxd.Prelude.Int.{pos_part}
use blackboxd.Entry.{LogEntry, before}
use blackboxd.Oneshot.Heap
use blackboxd.Oneshot.Heap.{Cursor}
use blackboxd.Oneshot.Heap.Root.{init-IsReordered}
use blackboxd.Oneshot.Merge.{
  Filter, MergeOptions, insert_entry, sort_entries, cursor_of, read_cursor, cursors, remaining,
  merge,
}
use blackboxd.Oneshot.Merge.Advance.{
  NotAfter, IsSorted, AreSorted, All-perm, NotAfter-trans, remaining-perm, AreSorted_prop,
}
use blackboxd.Oneshot.Merge.Written.{
  length-perm, whole_merge, whole_merge_lem, IsWritten, merge_loop-IsWritten,
}

-- What a source gave, nothing after an error.
abbrev pub given : Option (List LogEntry) → List LogEntry
given none = []
given (some es) = es

-- The entries that the sources gave, each source in its turn.
abbrev pub entries_read : Filter → List (Filter → Option (List LogEntry)) → List LogEntry
entries_read f [] = []
entries_read f (read ∷ reads) = given (read f) ++ entries_read f reads

insert_entry_lem :
    (x : LogEntry) (l : List LogEntry)
    → IsSorted l
    → Perm (insert_entry x l) (x ∷ l) × IsSorted (insert_entry x l)
unfolding insert_entry
insert_entry_lem x [] s = (Perm.refl (x ∷ []), (tt, tt))
insert_entry_lem x (y ∷ l) s = elim (Bool-cases (before y.timestamp x.timestamp)) [
  | inl e ↦
      let le : NotAfter y x = ground arith in
      let (same, sorted) = insert_entry_lem x l s.1 in
      rw e (
        Perm.trans (Perm.cons y same) (Perm.swap x y l),
        (All-perm (NotAfter y) (λ x. le_prop) (Perm.symm same) (le, s.0), sorted),
      )
  | inr e ↦
      let le : NotAfter x y = ground arith in
      rw e (Perm.refl (x ∷ y ∷ l), ((le, NotAfter-trans x y l le s.0), s))
]

sort_entries_lem : (l : List LogEntry) → Perm (sort_entries l) l × IsSorted (sort_entries l)
unfolding sort_entries
sort_entries_lem [] = (Perm.refl [], tt)
sort_entries_lem (x ∷ l) =
    let (same, sorted) = sort_entries_lem l in
    let (same', sorted') = insert_entry_lem x (sort_entries l) sorted in
    (Perm.trans same' (Perm.cons x same), sorted')

cursor_of_lem :
    (es : List LogEntry) (h : List Cursor)
    → IsSorted es
    → AreSorted h
    → (remaining (cursor_of es ++ h) ≡ es ++ remaining h) × AreSorted (cursor_of es ++ h)
unfolding cursor_of remaining
cursor_of_lem [] h s k = (refl, k)
cursor_of_lem (e ∷ es) h s k = (refl, (s, k))

read_cursor_lem :
    (o : Option (List LogEntry)) (h : List Cursor) (l : List LogEntry)
    → Perm (remaining h) l
    → AreSorted h
    → Perm (remaining (read_cursor o ++ h)) (given o ++ l) × AreSorted (read_cursor o ++ h)
unfolding read_cursor
read_cursor_lem none h l same k = (same, k)
read_cursor_lem (some es) h l same k =
    let (perm, sorted) = sort_entries_lem es in
    let (e, k') = cursor_of_lem (sort_entries es) h sorted k in
    (
      subst (λ x. Perm x (es ++ l)) (sym e)
          (Perm.trans (Perm.append_right (remaining h) perm) (Perm.append_left es same)),
      k',
    )

pub cursors_lem :
    (f : Filter) (reads : List (Filter → Option (List LogEntry)))
    → Perm (remaining (cursors f reads)) (entries_read f reads) × AreSorted (cursors f reads)
unfolding cursors remaining
cursors_lem f [] = (Perm.refl [], tt)
cursors_lem f (read ∷ reads) =
    let (same, sorted) = cursors_lem f reads in
    read_cursor_lem (read f) (cursors f reads) (entries_read f reads) same sorted

-- A run of the merge, beside the whole of what there is to write.
pub record IsMerge (limit : ℕ) (fails : ℕ → Bool) (entries out : List LogEntry) (good : Bool)
    : Type 0 where
  pub whole : List LogEntry
  pub same : Perm whole entries
  pub sorted : IsSorted whole
  pub written : IsWritten limit 0 fails whole out good

-- For any sources, any options and any write that may fail, there is a list of all the entries
-- that the sources gave, in the order of their times, of which Merge writes the first ones: no
-- write of these failed, and no more than the cap allows; and it stops, with nil, at the end of
-- the list or at the cap, or with an error at a write that fails.
pub merge-IsMerge :
    (fails : ℕ → Bool) (reads : List (Filter → Option (List LogEntry))) (opts : MergeOptions)
    → let (out, good) = merge fails reads opts in
      IsMerge (pos_part opts.max_lines) fails (entries_read opts.filter reads) out good
unfolding merge
merge-IsMerge fails reads opts =
    let h = cursors opts.filter reads in
    let k = length (remaining h) + 1 in
    let (same, sorted) = cursors_lem opts.filter reads in
    let start = init-IsReordered h in
    let moved = remaining-perm start.same in
    let (all, order) =
      whole_merge_lem k (Heap.init h) (omega (arith, length-perm moved)) start.heap
        (All-perm _ AreSorted_prop (Perm.symm start.same) sorted) in
    record {
      whole = whole_merge k (Heap.init h);
      same = Perm.trans all (Perm.trans moved same);
      sorted = order;
      written = merge_loop-IsWritten k (pos_part opts.max_lines) fails 0 (Heap.init h);
    }

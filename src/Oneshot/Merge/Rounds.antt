-- ===== src/Oneshot/Merge/Rounds.antt =====
-- The loop of `Merge` ends by itself.
use mathlib.Core.List.Perm
use blackboxd.Prelude.{
  ℕ, zero, suc, ◌+◌, ◌<◌, ◌≡◌, refl, ap, Bool, true, false, List, [], ◌∷◌, Option, length, arith,
  ◌&&◌, ltb, leb, if◌then◌else◌,
}
use blackboxd.Prelude.Int.{pos_part}
use blackboxd.Entry.{LogEntry}
use blackboxd.Oneshot.Heap
use blackboxd.Oneshot.Heap.{Cursor}
use blackboxd.Oneshot.Heap.Root.{IsHeap, init-IsReordered}
use blackboxd.Oneshot.Merge.{
  Filter, MergeOptions, cursors, advance_root, remaining, merge_loop, merge,
}
use blackboxd.Oneshot.Merge.Advance.{
  AreSorted, All-perm, AreSorted_prop, remaining-perm, advance_root-IsAdvanced,
}
use blackboxd.Oneshot.Merge.Sorted.{cursors_lem}
use blackboxd.Oneshot.Merge.Written.{length-perm}

-- A round with an entry at the root, whatever the rest does.
round : ℕ → (ℕ → Bool) → ℕ → LogEntry → List LogEntry × Bool → List LogEntry × Bool
round limit fails w e rest =
    if ltb 0 limit && leb limit w
    then ([], true)
    else if fails w
    then ([], false)
    else (e ∷ rest.0, rest.1)

merge_loop-fuel :
    (k j limit : ℕ) (fails : ℕ → Bool) (w : ℕ) (h : List Cursor)
    → length (remaining h) < k
    → length (remaining h) < j
    → IsHeap h
    → AreSorted h
    → merge_loop k limit fails w h ≡ merge_loop j limit fails w h
unfolding merge_loop remaining round
merge_loop-fuel zero j limit fails w h lt lt' v s = absurd (omega arith)
merge_loop-fuel (suc k) zero limit fails w h lt lt' v s = absurd (omega arith)
merge_loop-fuel (suc k) (suc j) limit fails w [] lt lt' v s = refl
merge_loop-fuel (suc k) (suc j) limit fails w (c ∷ cs) lt lt' v s =
    let a = advance_root-IsAdvanced c.head c.later cs v s in
    ap (λ (rest : List LogEntry × Bool). round limit fails w c.head rest)
      (merge_loop-fuel k j limit fails (suc w) (advance_root c.head c.later cs)
        (omega (arith, length-perm a.same)) (omega (arith, length-perm a.same)) a.heap a.sorted)

-- Any number of rounds above the number of entries that the sources gave is enough for the loop of
-- Merge: with each such number the loop gives what Merge gives.
pub merge_ends :
    (fails : ℕ → Bool) (reads : List (Filter → Option (List LogEntry))) (opts : MergeOptions)
    (k : ℕ)
    → length (remaining (cursors opts.filter reads)) < k
    → merge_loop k (pos_part opts.max_lines) fails 0 (Heap.init (cursors opts.filter reads))
      ≡ merge fails reads opts
unfolding merge
merge_ends fails reads opts k lt =
    let h = cursors opts.filter reads in
    let start = init-IsReordered h in
    let sorted = (cursors_lem opts.filter reads).1 in
    let n = length-perm (remaining-perm start.same) in
    merge_loop-fuel k (length (remaining h) + 1) (pos_part opts.max_lines) fails 0 (Heap.init h)
      (omega (arith, n)) (omega (arith, n)) start.heap
      (All-perm _ AreSorted_prop (Perm.symm start.same) sorted)

-- ===== src/Oneshot/Heap.antt =====
-- The heap of cursors of internal/oneshot/oneshot.go: `mergeHeap` under `Init`, `Fix` and `Pop` of
-- Go's container/heap.
pub mod Slots
pub mod Sift
pub mod Root
use blackboxd.Prelude.{
  ℕ, zero, suc, ◌+◌, ◌-◌, ◌*◌, ◌/◌, Bool, List, [], ◌∷◌, ◌&&◌, ltb, leb, if◌then◌else◌, length,
  get_or, set, take,
}
use blackboxd.Entry.{Time, before, LogEntry, empty_entry}

-- `mergeCursor`: the entry at `idx`, and those behind it. The heap holds no cursor that is past its
-- last entry.
pub record Cursor : Type 0 where
  pub head : LogEntry
  pub later : List LogEntry

-- What a read out of range would give, where the code would panic. No index is ever out of range:
-- `down` tests its indices against `n`.
abbrev pub no_cursor : Cursor
no_cursor = record { head = empty_entry; later = [] }

unfoldable pub cursor_at : List Cursor → ℕ → Cursor
cursor_at h i = get_or h i no_cursor

-- The time by which the heap is ordered.
abbrev pub key : List Cursor → ℕ → Time
key h i = (cursor_at h i).head.timestamp

-- `mergeHeap.Less` and `mergeHeap.Swap`.
abbrev pub less : List Cursor → ℕ → ℕ → Bool
less h i j = before (key h i) (key h j)

unfoldable pub swap : List Cursor → ℕ → ℕ → List Cursor
swap h i j = set (set h i (cursor_at h j)) j (cursor_at h i)

-- In `down`: the child of `i` to compare with, below `n`.
unfoldable pub smaller_child : List Cursor → ℕ → ℕ → ℕ
smaller_child h i n =
    if ltb (2 * i + 2) n && less h (2 * i + 2) (2 * i + 1) then 2 * i + 2 else 2 * i + 1

-- The loop of `down`. Each round makes `i` larger, so `n` rounds are enough.
unfoldable pub down_loop : ℕ → List Cursor → ℕ → ℕ → List Cursor
down_loop zero h i n = h
down_loop (suc k) h i n =
    let j = smaller_child h i n in
    let sunk = down_loop k (swap h i j) j n in
    if leb n (2 * i + 1) then h else if less h j i then sunk else h

unfoldable pub down : List Cursor → ℕ → ℕ → List Cursor
down h i n = down_loop (n + 1) h i n

-- `heap.Init`: the loop counts down from the last parent.
unfoldable pub init_loop : ℕ → List Cursor → List Cursor
init_loop zero h = h
init_loop (suc i) h = init_loop i (down h i (length h))

unfoldable pub init : List Cursor → List Cursor
init h = init_loop (length h / 2) h

-- `heap.Fix(h, 0)`: where `down` moved nothing, `up` at the root moves nothing either.
unfoldable pub fix_root : List Cursor → List Cursor
fix_root h = down h 0 (length h)

-- `heap.Pop`, and the heap that is left: the last cursor comes to the root, and `mergeHeap.Pop` cuts
-- off what was the root.
unfoldable pub pop : List Cursor → List Cursor
pop h = take (length h - 1) (down (swap h 0 (length h - 1)) 0 (length h - 1))

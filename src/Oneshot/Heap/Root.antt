-- ===== src/Oneshot/Heap/Root.antt =====
-- Whole heaps: how one is built, its root, and the two ways to take an entry off the root.
use mathlib.Core.List.{Perm, perm_append_singleton}
use mathlib.Core.List.Perm
use blackboxd.Prelude.{
  ℕ, zero, suc, ◌-◌, ◌/◌, ◌<◌, ◌≡◌, refl, ap, ◌∙◌, sym, List, [], ◌∷◌, ◌++◌, length, length-take,
  take, arith,
}
use blackboxd.Prelude.Int.{◌≤ℤ◌}
use blackboxd.Oneshot.Heap.{Cursor, cursor_at, key, swap, down, init_loop, init, fix_root, pop}
use blackboxd.Oneshot.Heap.Slots.{
  length-swap, cursor_at-swap, swap-perm, cursor_at-set, cursor_at-take, take-append-last,
}
use blackboxd.Oneshot.Heap.Sift.{parent, IsHeapFrom, down-IsSifted}

-- No cursor's entry is before the entry of its parent.
abbrev pub IsHeap : List Cursor → Type 0
IsHeap h = IsHeapFrom 0 (length h) h

-- A heap of the same cursors.
pub record IsReordered (h h' : List Cursor) : Type 0 where
  pub heap : IsHeap h'
  pub same : Perm h' h
  pub size : length h' ≡ length h

init_loop-IsReordered :
    (i : ℕ) (h : List Cursor) → IsHeapFrom i (length h) h → IsReordered h (init_loop i h)
unfolding init_loop
init_loop-IsReordered zero h v = record { heap = v; same = Perm.refl h; size = refl }
init_loop-IsReordered (suc i) h v =
    let d = down-IsSifted i (length h) i h (omega arith) (record {
      others = λ c p q r t. v c p q (omega arith);
      across = λ c p q r t u. absurd (omega arith);
    }) in
    let rest = init_loop-IsReordered i (down h i (length h)) (rw d.size d.heap) in
    record { heap = rest.heap; same = Perm.trans rest.same d.same; size = rest.size ∙ d.size }

pub init-IsReordered : (h : List Cursor) → IsReordered h (init h)
unfolding init
init-IsReordered h = init_loop-IsReordered (length h / 2) h (λ c p q r. absurd (omega arith))

root_least_below :
    (k i : ℕ) (h : List Cursor) → IsHeap h → i < k → i < length h → key h 0 ≤ℤ key h i
root_least_below zero i h v lt inside = absurd (omega arith)
root_least_below (suc k) zero h v lt inside = omega arith
root_least_below (suc k) (suc i) h v lt inside = omega (
  arith,
  v (suc i) (omega arith) inside (omega arith),
  root_least_below k (parent (suc i)) h v (omega arith) (omega arith),
)

-- No entry of a heap is before the entry at the root.
pub root_least : (i : ℕ) (h : List Cursor) → IsHeap h → i < length h → key h 0 ≤ℤ key h i
root_least i h v inside = root_least_below (suc i) i h v (omega arith) inside

-- The root's cursor has moved on, and sinks.
pub fix_root-IsReordered :
    (c v : Cursor) (cs : List Cursor) → IsHeap (c ∷ cs) → IsReordered (v ∷ cs) (fix_root (v ∷ cs))
unfolding fix_root
fix_root-IsReordered c v cs h =
    let at = λ (i : ℕ). cursor_at-set (c ∷ cs) 0 i v (omega arith) in
    let d = down-IsSifted 0 (length (v ∷ cs)) 0 (v ∷ cs) (omega arith) (record {
      others = λ i p q r t. ground (arith, h i p q r, at i, at (parent i));
      across = λ i p q r t u. absurd (omega arith);
    }) in
    record { heap = rw d.size d.heap; same = d.same; size = d.size }

-- The root's cursor is gone; the others are a heap.
pub record IsPopped (h h' : List Cursor) : Type 0 where
  pub heap : IsHeap h'
  pub same : Perm (cursor_at h 0 ∷ h') h
  pub size : length h ≡ suc (length h')

pop_at :
    (n : ℕ) (h : List Cursor)
    → length h ≡ suc n
    → IsHeap h
    → IsPopped h (take n (down (swap h 0 n) 0 n))
pop_at n h e v =
    let at = λ (i : ℕ). cursor_at-swap h 0 n i (omega arith) (omega arith) in
    let d = down-IsSifted 0 n 0 (swap h 0 n) (omega (arith, length-swap h 0 n)) (record {
      others = λ i p q r t. ground (arith, v i p, at i, at (parent i));
      across = λ i p q r t u. absurd (omega arith);
    }) in
    let h' = down (swap h 0 n) 0 n in
    let size : length h' ≡ suc n = omega (arith, d.size, length-swap h 0 n) in
    let short : length (take n h') ≡ n = omega (arith, length-take n h') in
    let last : cursor_at h' n ≡ cursor_at h 0 = d.beyond n (omega arith) ∙ ground (arith, at n) in
    let whole : take n h' ++ (cursor_at h 0 ∷ []) ≡ h' =
      ap (λ c. take n h' ++ (c ∷ [])) (sym last) ∙ take-append-last n h' size in
    record {
      heap = λ i p q r.
          ground (arith, d.heap i p, cursor_at-take n h' i, cursor_at-take n h' (parent i));
      same =
          Perm.trans (Perm.symm (perm_append_singleton (cursor_at h 0) (take n h')))
            (rw whole (Perm.trans d.same (swap-perm h 0 n (omega arith) (omega arith))));
      size = omega arith;
    }

pub pop-IsPopped : (h : List Cursor) → 0 < length h → IsHeap h → IsPopped h (pop h)
unfolding pop
pop-IsPopped h some_left v = pop_at (length h - 1) h (omega arith) v

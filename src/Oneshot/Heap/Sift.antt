-- ===== src/Oneshot/Heap/Sift.antt =====
-- What `down` does to an array that is a heap but for one slot.
use mathlib.Core.List.{Perm}
use mathlib.Core.List.Perm
use blackboxd.Prelude.{
  ℕ, zero, suc, ◌+◌, ◌-◌, ◌*◌, ◌/◌, ◌≤◌, ◌<◌, ◌≡◌, ◌≢◌, refl, ◌∙◌, ◌⊎◌, inl, inr, List, true, ltb,
  leb, ◌&&◌, Bool-cases, length, arith,
}
use blackboxd.Prelude.Int.{◌≤ℤ◌}
use blackboxd.Oneshot.Heap.{Cursor, cursor_at, key, less, swap, smaller_child, down_loop, down}
use blackboxd.Oneshot.Heap.Slots.{length-swap, cursor_at-swap, swap-perm}

abbrev pub parent : ℕ → ℕ
parent c = (c - 1) / 2

-- Among the first `n` slots, no slot with a parent at `lo` or behind is before its parent.
abbrev pub IsHeapFrom : ℕ → ℕ → List Cursor → Type 0
IsHeapFrom lo n h = (c : ℕ) → 0 < c → c < n → lo ≤ parent c → key h (parent c) ≤ℤ key h c

-- The same but for the children of `i`, which are not before the parent of `i`.
pub record IsLoose (lo n : ℕ) (h : List Cursor) (i : ℕ) : Type 0 where
  pub others : (c : ℕ) → 0 < c → c < n → lo ≤ parent c → parent c ≢ i → key h (parent c) ≤ℤ key h c
  pub across :
      (c : ℕ) → 0 < c → c < n → parent c ≡ i → 0 < i → lo ≤ parent i → key h (parent i) ≤ℤ key h c

-- The result of `down`: a heap of the same cursors, with the slots from `n` on as they were.
pub record IsSifted (lo n : ℕ) (h h' : List Cursor) : Type 0 where
  pub heap : IsHeapFrom lo n h'
  pub same : Perm h' h
  pub size : length h' ≡ length h
  pub beyond : (c : ℕ) → n ≤ c → cursor_at h' c ≡ cursor_at h c

record IsLeastChild (h : List Cursor) (i n j : ℕ) : Type 0 where
  below : j < n
  child : (j ≡ 2 * i + 1) ⊎ (j ≡ 2 * i + 2)
  least : (c : ℕ) → 0 < c → c < n → parent c ≡ i → key h j ≤ℤ key h c

child_of : (i c : ℕ) → 0 < c → parent c ≡ i → (c ≡ 2 * i + 1) ⊎ (c ≡ 2 * i + 2)
child_of i c p r = omega arith

least_of_two :
    (h : List Cursor) (i c j : ℕ)
    → 0 < c
    → parent c ≡ i
    → key h j ≤ℤ key h (2 * i + 1)
    → (c ≡ 2 * i + 2 → key h j ≤ℤ key h (2 * i + 2))
    → key h j ≤ℤ key h c
least_of_two h i c j p r one two = elim (child_of i c p r) [
  | inl e ↦ rw e one
  | inr e ↦ rw e (two e)
]

smaller_child-IsLeastChild :
    (h : List Cursor) (i n : ℕ) → 2 * i + 1 < n → IsLeastChild h i n (smaller_child h i n)
unfolding smaller_child
smaller_child-IsLeastChild h i n lt =
    elim (Bool-cases (ltb (2 * i + 2) n && less h (2 * i + 2) (2 * i + 1))) [
      | inl right ↦ rw right (record {
        below = ground arith;
        child = inr refl;
        least = λ c p q r. least_of_two h i c (2 * i + 2) p r (ground arith) (omega arith);
      })
      | inr left ↦ rw left (record {
        below = omega arith;
        child = inl refl;
        least = λ c p q r. least_of_two h i c (2 * i + 1) p r (omega arith) (ground arith);
      })
    ]

swap-IsLoose :
    (lo n : ℕ) (h : List Cursor) (i j : ℕ)
    → n ≤ length h
    → IsLoose lo n h i
    → IsLeastChild h i n j
    → less h j i ≡ true
    → IsLoose lo n (swap h i j) j
swap-IsLoose lo n h i j le v m below =
    let moved = λ (c : ℕ).
      cursor_at-swap h i j c (omega (arith, m.child, m.below)) (omega (arith, m.below)) in
    record {
      others =
          λ c p q r t. ground (arith, moved c, moved (parent c), v.others c, v.across j, m.least c);
      across = λ c p q r t u. ground (arith, moved c, moved (parent j), v.others c);
    }

-- Where no child is before its parent nothing has to move.
still :
    (lo n i : ℕ) (h : List Cursor)
    → IsLoose lo n h i
    → ((c : ℕ) → 0 < c → c < n → parent c ≡ i → key h i ≤ℤ key h c)
    → IsSifted lo n h h
still lo n i h v settled = record {
  heap = λ c p q r. ground (arith, v.others c p q r, settled c p q);
  same = Perm.refl h;
  size = refl;
  beyond = λ c p. refl;
}

swapped :
    (lo n : ℕ) (h : List Cursor) (i j : ℕ) (h' : List Cursor)
    → n ≤ length h
    → j < length h
    → i < j
    → j < n
    → IsSifted lo n (swap h i j) h'
    → IsSifted lo n h h'
swapped lo n h i j h' le inside lt below d = record {
  heap = d.heap;
  same = Perm.trans d.same (swap-perm h i j (omega arith) inside);
  size = d.size ∙ length-swap h i j;
  beyond = λ c p. d.beyond c p ∙ ground (arith, cursor_at-swap h i j c);
}

down_loop-IsSifted :
    (k lo n i : ℕ) (h : List Cursor)
    → n < k + i
    → n ≤ length h
    → IsLoose lo n h i
    → IsSifted lo n h (down_loop k h i n)
unfolding down_loop
down_loop-IsSifted zero lo n i h f le v = record {
  heap = λ c p q r. v.others c p q r (omega arith);
  same = Perm.refl h;
  size = refl;
  beyond = λ c p. refl;
}
down_loop-IsSifted (suc k) lo n i h f le v =
    let j = smaller_child h i n in
    let stays = λ (settled : (c : ℕ) → 0 < c → c < n → parent c ≡ i → key h i ≤ℤ key h c).
      still lo n i h v settled in
    elim (Bool-cases (leb n (2 * i + 1))) [
      | inl no_child ↦ rw no_child (stays (λ c p q r. absurd (ground arith)))
      | inr some_child ↦
          let m = smaller_child-IsLeastChild h i n (ground arith) in
          elim (Bool-cases (less h j i)) [
            | inl below ↦
                let inside : j < length h = omega (arith, m.below) in
                let deeper =
                  down_loop-IsSifted k lo n j (swap h i j) (omega (arith, m.child))
                    (omega (arith, length-swap h i j)) (swap-IsLoose lo n h i j le v m below) in
                rw (some_child, below)
                  (swapped lo n h i j _ le inside (omega (arith, m.child)) m.below deeper)
            | inr settled ↦
                rw (some_child, settled) (stays (λ c p q r. ground (arith, m.least c p q r)))
          ]
    ]

-- The rounds of `down` are enough.
pub down-IsSifted :
    (lo n i : ℕ) (h : List Cursor) → n ≤ length h → IsLoose lo n h i → IsSifted lo n h (down h i n)
unfolding down
down-IsSifted lo n i h le v = down_loop-IsSifted (n + 1) lo n i h (omega arith) le v

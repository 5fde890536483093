-- ===== src/Oneshot/Heap/Slots.antt =====
-- The cursors of the heap by their indices, and what a swap does to them.
use mathlib.Core.List.{Perm}
use mathlib.Core.List.Perm
use blackboxd.Prelude.{
  ℕ, zero, suc, ◌<◌, ◌≡◌, refl, ap, ◌∙◌, List, [], ◌∷◌, ◌++◌, arith, ◌==◌, if◌then◌else◌, length,
  length-set, set, take,
}
use blackboxd.Oneshot.Heap.{Cursor, cursor_at, swap}

pub cursor_at-set :
    (h : List Cursor) (i c : ℕ) (v : Cursor)
    → i < length h
    → cursor_at (set h i v) c ≡ (if i == c then v else cursor_at h c)
unfolding cursor_at
cursor_at-set [] i c v lt = absurd (omega arith)
cursor_at-set (x ∷ h) zero zero v lt = refl
cursor_at-set (x ∷ h) zero (suc c) v lt = ground arith
cursor_at-set (x ∷ h) (suc i) zero v lt = ground arith
cursor_at-set (x ∷ h) (suc i) (suc c) v lt = ground (arith, cursor_at-set h i c v)

pub length-swap : (h : List Cursor) (i j : ℕ) → length (swap h i j) ≡ length h
unfolding swap
length-swap h i j =
    length-set (set h i (cursor_at h j)) j (cursor_at h i) ∙ length-set h i (cursor_at h j)

pub cursor_at-swap :
    (h : List Cursor) (i j c : ℕ)
    → i < length h
    → j < length h
    → cursor_at (swap h i j) c
      ≡ (if j == c then cursor_at h i else if i == c then cursor_at h j else cursor_at h c)
unfolding swap
cursor_at-swap h i j c hi hj =
    cursor_at-set (set h i (cursor_at h j)) j c (cursor_at h i) (rw length-set hj)
    ∙ rw (cursor_at-set h i c (cursor_at h j) hi) refl

-- Writing a slot exchanges one cursor for another.
set-perm :
    (h : List Cursor) (i : ℕ) (v : Cursor) → i < length h → Perm (cursor_at h i ∷ set h i v) (v ∷ h)
unfolding cursor_at
set-perm [] i v lt = absurd (omega arith)
set-perm (x ∷ h) zero v lt = Perm.swap v x h
set-perm (x ∷ h) (suc i) v lt =
    Perm.trans (Perm.swap x (cursor_at h i) (set h i v))
      (Perm.trans (Perm.cons x (set-perm h i v (omega arith))) (Perm.swap v x h))

pub swap-perm : (h : List Cursor) (i j : ℕ) → i < length h → j < length h → Perm (swap h i j) h
unfolding swap
swap-perm h i j hi hj =
    let moved = set h i (cursor_at h j) in
    let same : cursor_at moved j ≡ cursor_at h j =
      ground (arith, cursor_at-set h i j (cursor_at h j)) in
    let back = rw same at (set-perm moved j (cursor_at h i) (rw length-set hj)) in
    Perm.cons_inv (Perm.trans back (set-perm h i (cursor_at h j) hi))

pub cursor_at-take :
    (n : ℕ) (h : List Cursor) (c : ℕ) → c < n → cursor_at (take n h) c ≡ cursor_at h c
unfolding cursor_at
cursor_at-take zero h c lt = absurd (omega arith)
cursor_at-take (suc n) [] c lt = refl
cursor_at-take (suc n) (x ∷ h) zero lt = refl
cursor_at-take (suc n) (x ∷ h) (suc c) lt = cursor_at-take n h c (omega arith)

-- The last cursor, and the ones before it.
pub take-append-last :
    (n : ℕ) (h : List Cursor) → length h ≡ suc n → take n h ++ (cursor_at h n ∷ []) ≡ h
unfolding cursor_at
take-append-last n [] e = absurd (omega arith)
take-append-last zero (x ∷ []) e = refl
take-append-last zero (x ∷ y ∷ h) e = absurd (omega arith)
take-append-last (suc n) (x ∷ h) e = ap (◌∷◌ x) (take-append-last n h (omega arith))

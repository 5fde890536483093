-- ===== src/Oneshot/Merge/Advance.antt =====
-- One round of the merge: the entry at the root comes first, and the other entries remain.
use mathlib.Core.Logic.{∥∥₁_elim}
use mathlib.Core.List.{Perm, Perm-prop, Permᴰ, append_assoc, perm_append_comm}
use mathlib.Core.List.Perm
use mathlib.Core.HLevel.{×_prop}
use native.Mathlib.Bridge.{le_prop}
use blackboxd.Prelude.{All-append, ℕ, suc, ◌<◌, subst, List, [], ◌∷◌, ◌++◌, length, All, arith}
use blackboxd.Prelude.Int.{◌≤ℤ◌}
use blackboxd.Entry.{LogEntry}
use blackboxd.Oneshot.Heap.{Cursor, cursor_at}
use blackboxd.Oneshot.Heap.Root.{IsHeap, fix_root-IsReordered, pop-IsPopped, root_least}
use blackboxd.Oneshot.Merge.{advance_root, remaining}

-- `a` is not later than `b`.
abbrev pub NotAfter : LogEntry → LogEntry → Type 0
NotAfter a b = a.timestamp ≤ℤ b.timestamp

abbrev pub IsSorted : List LogEntry → Type 0
IsSorted [] = Unit {0}
IsSorted (e ∷ es) = All (NotAfter e) es × IsSorted es

-- The entries of every cursor are in order.
abbrev pub AreSorted : List Cursor → Type 0
AreSorted = All (λ c. IsSorted (c.head ∷ c.later))

module _ {ℓ κ} {A : Type ℓ} (P : A → Type κ) where
  All-prop : ((a : A) → IsProp (P a)) → (l : List A) → IsProp (All P l)
  All-prop h [] = hlevel
  All-prop h (x ∷ l) = ×_prop (h x) (All-prop h l)

  All-Permᴰ : {l l' : List A} → Permᴰ l l' → All P l → All P l'
  All-Permᴰ Permᴰ.nil h = h
  All-Permᴰ (Permᴰ.cons e p) h = (subst P e h.0, All-Permᴰ p h.1)
  All-Permᴰ (Permᴰ.swap e f) h = (subst P f h.1.0, (subst P e h.0, h.1.1))
  All-Permᴰ (Permᴰ.trans p q) h = All-Permᴰ q (All-Permᴰ p h)

  pub All-perm : ((a : A) → IsProp (P a)) → {l l' : List A} → Perm l l' → All P l → All P l'
  All-perm h {l' = l'} p all = ∥∥₁_elim p (All-prop h l') (λ q. All-Permᴰ q all)

pub IsSorted-prop : (l : List LogEntry) → IsProp (IsSorted l)
IsSorted-prop [] = hlevel
IsSorted-prop (e ∷ es) = ×_prop (All-prop (NotAfter e) (λ x. le_prop) es) (IsSorted-prop es)

blocks-perm {ℓ} : {A : Type ℓ} (xs ys zs : List A) → Perm (xs ++ (ys ++ zs)) (ys ++ (xs ++ zs))
blocks-perm xs ys zs =
    subst (λ l. Perm l (ys ++ (xs ++ zs))) (append_assoc xs ys zs)
      (subst (λ l. Perm ((xs ++ ys) ++ zs) l) (append_assoc ys xs zs)
        (Perm.append_right zs (perm_append_comm xs ys)))

remaining-Permᴰ : {h h' : List Cursor} → Permᴰ h h' → Perm (remaining h) (remaining h')
unfolding remaining
remaining-Permᴰ Permᴰ.nil = Perm.refl []
remaining-Permᴰ (Permᴰ.cons {a = a} {b = b} {l₁ = h} {l₂ = h'} e p) =
    subst (λ x. Perm (remaining (a ∷ h)) (remaining (x ∷ h'))) e
      (Perm.append_left (a.head ∷ a.later) (remaining-Permᴰ p))
remaining-Permᴰ (Permᴰ.swap {a = a} {b = b} {a' = a'} {l = h} e f) =
    subst (λ x. Perm (remaining (a ∷ b ∷ h)) (remaining (a' ∷ x ∷ h))) e
      (subst (λ x. Perm (remaining (a ∷ b ∷ h)) (remaining (x ∷ a ∷ h))) f
        (blocks-perm (a.head ∷ a.later) (b.head ∷ b.later) (remaining h)))
remaining-Permᴰ (Permᴰ.trans p q) = Perm.trans (remaining-Permᴰ p) (remaining-Permᴰ q)

pub remaining-perm : {h h' : List Cursor} → Perm h h' → Perm (remaining h) (remaining h')
remaining-perm p = ∥∥₁_elim p Perm-prop remaining-Permᴰ

All-cursor_at :
    (P : Cursor → Type 0) (h : List Cursor) → ((i : ℕ) → i < length h → P (cursor_at h i)) → All P h
unfolding cursor_at
All-cursor_at P [] k = tt
All-cursor_at P (c ∷ h) k = (k 0 (omega arith), All-cursor_at P h (λ i lt. k (suc i) (omega arith)))

pub NotAfter-trans :
    (a b : LogEntry) (es : List LogEntry) → NotAfter a b → All (NotAfter b) es → All (NotAfter a) es
NotAfter-trans a b [] h k = tt
NotAfter-trans a b (e ∷ es) h k = (omega arith, NotAfter-trans a b es h k.1)

before_remaining :
    (e : LogEntry) (h : List Cursor)
    → All (λ c. NotAfter e c.head) h
    → AreSorted h
    → All (NotAfter e) (remaining h)
unfolding remaining
before_remaining e [] k s = tt
before_remaining e (c ∷ h) k s = (
  k.0,
  All-append (NotAfter e) c.later (remaining h) (NotAfter-trans e c.head c.later k.0 s.0.0)
      (before_remaining e h k.1 s.1),
)

-- No entry that remains is before the one at the root.
pub root_first :
    (c : Cursor) (cs : List Cursor)
    → IsHeap (c ∷ cs)
    → AreSorted (c ∷ cs)
    → All (NotAfter c.head) (remaining (c ∷ cs))
unfolding cursor_at
root_first c cs v s =
    before_remaining c.head (c ∷ cs)
      (All-cursor_at (λ d. NotAfter c.head d.head) (c ∷ cs) (λ i lt. root_least i (c ∷ cs) v lt)) s

-- The heap behind a round: in order again, with all entries but the root's.
pub record IsAdvanced (e : LogEntry) (h h' : List Cursor) : Type 0 where
  pub heap : IsHeap h'
  pub sorted : AreSorted h'
  pub same : Perm (e ∷ remaining h') (remaining h)

pub AreSorted_prop : (c : Cursor) → IsProp (IsSorted (c.head ∷ c.later))
AreSorted_prop c = IsSorted-prop (c.head ∷ c.later)

pub advance_root-IsAdvanced :
    (e : LogEntry) (later : List LogEntry) (cs : List Cursor)
    → let h = record { head = e; later = later } ∷ cs in
      IsHeap h → AreSorted h → IsAdvanced e h (advance_root e later cs)
unfolding advance_root remaining cursor_at
advance_root-IsAdvanced e [] cs v s =
    let c : Cursor = record { head = e; later = [] } in
    let p = pop-IsPopped (c ∷ cs) (omega arith) v in
    record {
      heap = p.heap;
      sorted = (All-perm _ AreSorted_prop (Perm.symm p.same) s).1;
      same = remaining-perm p.same;
    }
advance_root-IsAdvanced e (next ∷ later) cs v s =
    let c : Cursor = record { head = e; later = next ∷ later } in
    let c' : Cursor = record { head = next; later = later } in
    let p = fix_root-IsReordered c c' cs v in
    record {
      heap = p.heap;
      sorted = All-perm _ AreSorted_prop (Perm.symm p.same) (s.0.1, s.1);
      same = Perm.cons e (remaining-perm p.same);
    }

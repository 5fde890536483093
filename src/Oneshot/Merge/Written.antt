-- ===== src/Oneshot/Merge/Written.antt =====
-- The rounds of `Merge`: all that the cursors hold, in order, of which the loop writes the front.
use mathlib.Core.Logic.{∥∥₁_elim}
use mathlib.Core.List.{Perm, Permᴰ}
use mathlib.Core.List.Perm
use native.Mathlib.Bridge.{le_prop}
use native.Mathlib.Nat.{ℕ_set}
use blackboxd.Prelude.{
  ℕ, zero, suc, ◌+◌, ◌≤◌, ◌<◌, ◌≡◌, refl, ap, ◌∙◌, ◌⊎◌, inl, inr, subst, Bool, true, false, List,
  [], ◌∷◌, length, take, ltb, leb, ◌&&◌, Bool-cases, arith,
}
use blackboxd.Entry.{LogEntry}
use blackboxd.Oneshot.Heap.{Cursor}
use blackboxd.Oneshot.Heap.Root.{IsHeap}
use blackboxd.Oneshot.Merge.{advance_root, remaining, merge_loop}
use blackboxd.Oneshot.Merge.Advance.{
  NotAfter, IsSorted, AreSorted, All-perm, root_first, advance_root-IsAdvanced,
}

length-Permᴰ {ℓ} : {A : Type ℓ} {l l' : List A} → Permᴰ l l' → length l ≡ length l'
length-Permᴰ Permᴰ.nil = refl
length-Permᴰ (Permᴰ.cons e p) = ap suc (length-Permᴰ p)
length-Permᴰ (Permᴰ.swap e f) = refl
length-Permᴰ (Permᴰ.trans p q) = length-Permᴰ p ∙ length-Permᴰ q

pub length-perm {ℓ} : {A : Type ℓ} {l l' : List A} → Perm l l' → length l ≡ length l'
length-perm p = ∥∥₁_elim p (ℕ_set _ _) length-Permᴰ

-- All entries of the cursors, one round after the other.
pub whole_merge : ℕ → List Cursor → List LogEntry
whole_merge zero h = []
whole_merge (suc k) [] = []
whole_merge (suc k) (c ∷ cs) = c.head ∷ whole_merge k (advance_root c.head c.later cs)

pub whole_merge_lem :
    (k : ℕ) (h : List Cursor)
    → length (remaining h) < k
    → IsHeap h
    → AreSorted h
    → Perm (whole_merge k h) (remaining h) × IsSorted (whole_merge k h)
unfolding whole_merge remaining
whole_merge_lem zero h lt v s = absurd (omega arith)
whole_merge_lem (suc k) [] lt v s = (Perm.refl [], tt)
whole_merge_lem (suc k) (c ∷ cs) lt v s =
    let a = advance_root-IsAdvanced c.head c.later cs v s in
    let h' = advance_root c.head c.later cs in
    let (same, sorted) = whole_merge_lem k h' (omega (arith, length-perm a.same)) a.heap a.sorted in
    let first =
      All-perm (NotAfter c.head) (λ x. le_prop) (Perm.symm a.same) (root_first c cs v s) in
    (
      Perm.trans (Perm.cons c.head same) a.same,
      (All-perm (NotAfter c.head) (λ x. le_prop) (Perm.symm same) first.1, sorted),
    )

-- What is written of `whole` when `w` lines are written before: the first `n` entries, none of whose
-- writes failed, and no more than the limit (0 for none) allows; and why it ended there.
pub record IsWritten (limit w : ℕ) (fails : ℕ → Bool) (whole : List LogEntry) (out : List LogEntry)
    (good : Bool) : Type 0 where
  pub n : ℕ
  pub first : out ≡ take n whole
  pub inside : n ≤ length whole
  pub worked : (i : ℕ) → i < n → fails (w + i) ≡ false
  pub capped : (i : ℕ) → i < n → (limit ≡ 0) ⊎ (w + i < limit)
  pub ended :
      ((n ≡ length whole) × (good ≡ true))
      ⊎ ((0 < limit) × (limit ≤ w + n) × (good ≡ true))
      ⊎ ((fails (w + n) ≡ true) × (good ≡ false))

module _ (limit w : ℕ) (fails : ℕ → Bool) where
  -- Nothing is written.
  IsWritten-none :
      (whole : List LogEntry) (good : Bool)
      → ((0 ≡ length whole) × (good ≡ true))
        ⊎ ((0 < limit) × (limit ≤ w + 0) × (good ≡ true))
        ⊎ ((fails (w + 0) ≡ true) × (good ≡ false))
      → IsWritten limit w fails whole [] good
  IsWritten-none whole good why = record {
    n = 0;
    first = refl;
    inside = omega arith;
    worked = λ i lt. absurd (omega arith);
    capped = λ i lt. absurd (omega arith);
    ended = why;
  }

  -- An entry is written, and then the rest.
  IsWritten-suc :
      (x : LogEntry) (whole out : List LogEntry) (good : Bool)
      → (ltb 0 limit && leb limit w) ≡ false
      → fails w ≡ false
      → IsWritten limit (suc w) fails whole out good
      → IsWritten limit w fails (x ∷ whole) (x ∷ out) good
  IsWritten-suc x whole out good room fine r = record {
    n = suc r.n;
    first = ap (λ (l : List LogEntry). x ∷ l) r.first;
    inside = omega (arith, r.inside);
    worked = worked;
    capped = capped;
    ended = elim r.ended [
      | inl (e, g) ↦ inl (ap suc e, g)
      | inr (inl (p, le, g)) ↦ inr (inl (p, omega arith, g))
      | inr (inr (b, g)) ↦ inr (inr (subst (λ j. fails j ≡ true) (omega arith) b, g))
    ];
  }
    where
      worked : (i : ℕ) → i < suc r.n → fails (w + i) ≡ false
      worked zero lt = subst (λ j. fails j ≡ false) (omega arith) fine
      worked (suc i) lt = subst (λ j. fails j ≡ false) (omega arith) (r.worked i (omega arith))

      capped : (i : ℕ) → i < suc r.n → (limit ≡ 0) ⊎ (w + i < limit)
      capped zero lt = ground arith
      capped (suc i) lt = ground (arith, r.capped i (omega arith))

pub merge_loop-IsWritten :
    (k limit : ℕ) (fails : ℕ → Bool) (w : ℕ) (h : List Cursor)
    → let (out, good) = merge_loop k limit fails w h in
      IsWritten limit w fails (whole_merge k h) out good
unfolding merge_loop whole_merge
merge_loop-IsWritten zero limit fails w h = IsWritten-none limit w fails [] true (inl (refl, refl))
merge_loop-IsWritten (suc k) limit fails w [] =
    IsWritten-none limit w fails [] true (inl (refl, refl))
merge_loop-IsWritten (suc k) limit fails w (c ∷ cs) =
    let h = advance_root c.head c.later cs in
    let whole = whole_merge (suc k) (c ∷ cs) in
    elim (Bool-cases (ltb 0 limit && leb limit w)) [
      | inl full ↦
          rw full
            (IsWritten-none limit w fails whole true (inr (inl (ground arith, ground arith, refl))))
      | inr room ↦ elim (Bool-cases (fails w)) [
        | inl bad ↦
            rw (room, bad)
              (IsWritten-none limit w fails whole false
                (inr (inr (ap fails (omega arith) ∙ bad, refl))))
        | inr fine ↦
            rw (room, fine)
              (IsWritten-suc limit w fails c.head (whole_merge k h) _ _ room fine
                (merge_loop-IsWritten k limit fails (suc w) h))
      ]
    ]

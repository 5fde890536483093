-- ===== src/Transport/Spool/Sorting.antt =====
-- The order in which `evict` goes through the files: ascending by the bytes of their names.
use mathlib.Core.List.{Perm}
use mathlib.Core.List.Perm
use blackboxd.Prelude.{
  ℕ, ◌<◌, ◌≡◌, ◌⊎◌, inl, inr, true, false, List, [], ◌∷◌, All, All-map, ltb, Bool-cases, arith,
}
use blackboxd.Bytes.{Bytes}
use blackboxd.Bytes.Sorted.{bytes_ltb}
use blackboxd.Transport.Spool.{insert_item, sort_items}

-- A name comes before another or is the same: at the first byte where they differ it has the smaller
-- one, or it ends there.
abbrev pub NameLe : Bytes → Bytes → Type 0
NameLe [] t = Unit
NameLe (x ∷ s) [] = ⊥
NameLe (x ∷ s) (y ∷ t) = (x < y) ⊎ ((x ≡ y) × NameLe s t)

-- Each file's name comes before those behind it.
abbrev pub AreAscending : List (Bytes × ℕ) → Type 0
AreAscending [] = Unit
AreAscending (x ∷ l) = All (λ y. NameLe x.0 y.0) l × AreAscending l

NameLe-of-ltb : (s t : Bytes) → bytes_ltb s t ≡ true → NameLe s t
unfolding bytes_ltb
NameLe-of-ltb [] t h = tt
NameLe-of-ltb (x ∷ s) [] h = absurd (cc)
NameLe-of-ltb (x ∷ s) (y ∷ t) h = elim (Bool-cases (ltb x y)) [
  | inl lt ↦ inl (ground arith)
  | inr ge ↦ inr (ground arith, NameLe-of-ltb s t (ground arith))
]

NameLe-of-not-ltb : (s t : Bytes) → bytes_ltb t s ≡ false → NameLe s t
unfolding bytes_ltb
NameLe-of-not-ltb [] t h = tt
NameLe-of-not-ltb (x ∷ s) [] h = absurd (cc)
NameLe-of-not-ltb (x ∷ s) (y ∷ t) h = elim (Bool-cases (ltb x y)) [
  | inl lt ↦ inl (ground arith)
  | inr ge ↦ inr (ground arith, NameLe-of-not-ltb s t (ground arith))
]

NameLe-trans : (s t u : Bytes) → NameLe s t → NameLe t u → NameLe s u
NameLe-trans [] t u h k = tt
NameLe-trans (x ∷ s) [] u h k = absurd h
NameLe-trans (x ∷ s) (y ∷ t) [] h k = absurd k
NameLe-trans (x ∷ s) (y ∷ t) (z ∷ u) (inl lt) (inl lt') = inl (omega arith)
NameLe-trans (x ∷ s) (y ∷ t) (z ∷ u) (inl lt) (inr (e, k)) = inl (omega arith)
NameLe-trans (x ∷ s) (y ∷ t) (z ∷ u) (inr (e, h)) (inl lt) = inl (omega arith)
NameLe-trans (x ∷ s) (y ∷ t) (z ∷ u) (inr (e, h)) (inr (e', k)) =
    inr (omega arith, NameLe-trans s t u h k)

insert_item-All {ℓ} :
    (P : Bytes × ℕ → Type ℓ) (x : Bytes × ℕ) (l : List (Bytes × ℕ))
    → P x
    → All P l
    → All P (insert_item x l)
unfolding insert_item
insert_item-All P x [] px h = (px, tt)
insert_item-All P x (y ∷ l) px h = elim (Bool-cases (bytes_ltb y.0 x.0)) [
  | inl lt ↦ rw lt (h.0, insert_item-All P x l px h.1)
  | inr ge ↦ rw ge (px, h)
]

insert_item_lem :
    (x : Bytes × ℕ) (l : List (Bytes × ℕ))
    → AreAscending l
    → Perm (insert_item x l) (x ∷ l) × AreAscending (insert_item x l)
unfolding insert_item
insert_item_lem x [] s = (Perm.refl (x ∷ []), (tt, tt))
insert_item_lem x (y ∷ l) s = elim (Bool-cases (bytes_ltb y.0 x.0)) [
  | inl lt ↦
      let (same, sorted) = insert_item_lem x l s.1 in
      rw lt (
        Perm.trans (Perm.cons y same) (Perm.swap x y l),
        (insert_item-All (λ z. NameLe y.0 z.0) x l (NameLe-of-ltb y.0 x.0 lt) s.0, sorted),
      )
  | inr ge ↦
      let le = NameLe-of-not-ltb x.0 y.0 ge in
      let behind =
        All-map (λ z. NameLe y.0 z.0) (λ z. NameLe x.0 z.0) (λ z. NameLe-trans x.0 y.0 z.0 le) l
          s.0 in
      rw ge (Perm.refl (x ∷ y ∷ l), ((le, behind), s))
]

pub sort_items_lem : (l : List (Bytes × ℕ)) → Perm (sort_items l) l × AreAscending (sort_items l)
unfolding sort_items
sort_items_lem [] = (Perm.refl [], tt)
sort_items_lem (x ∷ l) =
    let (same, sorted) = sort_items_lem l in
    let (same', sorted') = insert_item_lem x (sort_items l) sorted in
    (Perm.trans same' (Perm.cons x same), sorted')

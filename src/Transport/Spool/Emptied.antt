-- ===== src/Transport/Spool/Emptied.antt =====
-- internal/transport/spool.go: what `List` lists when the files that it listed are deleted.
use blackboxd.Prelude.{
  ◌≡◌, refl, ◌∙◌, sym, ap, List, [], ◌∷◌, none, some, Bool-cases, inl, inr, All, ◌||◌, not,
}
use blackboxd.Bytes.{Bytes, bytes, equal}
use blackboxd.Bytes.Sorted.{sorted_names}
use blackboxd.Transport.Spool.{
  Spool, Dir, file, directory, find_node, remove_node, remove_all, has_suffix, spool_files, list,
}
use blackboxd.Transport.Spool.Appends.{find_node-remove_node}
use blackboxd.Transport.Spool.Listing.{
  Unique, IsStored, equal_refl, spool_files-AreStored, All-sorted_names,
}

absent_still : (k j : Bytes) (d : Dir) → find_node j d ≡ none → find_node j (remove_node k d) ≡ none
absent_still k j d h =
    find_node-remove_node k j d
    ∙ elim (Bool-cases (equal k j)) [ inl e ↦ rw e refl | inr ne ↦ rw ne h ]

Unique-remove_node : (k : Bytes) (d : Dir) → Unique d → Unique (remove_node k d)
unfolding remove_node
Unique-remove_node k [] u = tt
Unique-remove_node k ((j, n) ∷ d) (absent, u) = elim (Bool-cases (equal j k)) [
  | inl e ↦ rw e (Unique-remove_node k d u)
  | inr ne ↦ rw ne (absent_still k j d absent, Unique-remove_node k d u)
]

Unique-remove_all : (ks : List Bytes) (d : Dir) → Unique d → Unique (remove_all ks d)
unfolding remove_all
Unique-remove_all [] d u = u
Unique-remove_all (k ∷ ks) d u = Unique-remove_all ks (remove_node k d) (Unique-remove_node k d u)

absent_after :
    (k : Bytes) (ks : List Bytes) (d : Dir)
    → find_node k d ≡ none
    → find_node k (remove_all ks d) ≡ none
unfolding remove_all
absent_after k [] d h = h
absent_after k (j ∷ ks) d h = absent_after k ks (remove_node j d) (absent_still j k d h)

remove_all-absent : (ks : List Bytes) (d : Dir) → All (λ k. find_node k (remove_all ks d) ≡ none) ks
unfolding remove_all
remove_all-absent [] d = tt
remove_all-absent (k ∷ ks) d = (
  absent_after k ks (remove_node k d) (find_node-remove_node k k d ∙ rw (equal_refl k) refl),
  remove_all-absent ks (remove_node k d),
)

-- Removing files lists no new names.
spool_files-remove_node {ℓ} :
    (P : Bytes → Type ℓ) (k : Bytes) (d : Dir)
    → All P (spool_files d)
    → All P (spool_files (remove_node k d))
unfolding spool_files remove_node
spool_files-remove_node P k [] h = tt
spool_files-remove_node P k ((j, directory) ∷ d) h = elim (Bool-cases (equal j k)) [
  | inl e ↦ rw e (spool_files-remove_node P k d h)
  | inr ne ↦ rw ne (spool_files-remove_node P k d h)
]
spool_files-remove_node P k ((j, file c) ∷ d) h =
    elim (Bool-cases (has_suffix j (bytes ".tmp") || not (has_suffix j (bytes ".jsonl.gz")))) [
      | inl other ↦
          let rest = spool_files-remove_node P k d (rw other at h) in
          elim (Bool-cases (equal j k)) [ inl e ↦ rw e rest | inr ne ↦ rw (ne, other) rest ]
      | inr kept ↦
          let h' : P j × All P (spool_files d) = rw kept at h in
          let rest = spool_files-remove_node P k d h'.1 in
          elim (Bool-cases (equal j k)) [ inl e ↦ rw e rest | inr ne ↦ rw (ne, kept) (h'.0, rest) ]
    ]

spool_files-remove_all {ℓ} :
    (P : Bytes → Type ℓ) (ks : List Bytes) (d : Dir)
    → All P (spool_files d)
    → All P (spool_files (remove_all ks d))
unfolding remove_all
spool_files-remove_all P [] d h = h
spool_files-remove_all P (k ∷ ks) d h =
    spool_files-remove_all P ks (remove_node k d) (spool_files-remove_node P k d h)

none_stored :
    (d : Dir) (ks : List Bytes) → All (IsStored d) ks → All (λ k. find_node k d ≡ none) ks → ks ≡ []
none_stored d [] h g = refl
none_stored d (k ∷ ks) ((b, here), h) (gone, g) =
    let clash : some (file b) ≡ none = sym here ∙ gone in absurd (cc)

-- Without the files that it lists, a directory lists nothing.
pub list_emptied :
    (s : Spool) → Unique s.dir → list (record s { dir = remove_all (list s) s.dir }) ≡ []
unfolding list sorted_names
list_emptied s u =
    let d = remove_all (list s) s.dir in
    let absent =
      All-sorted_names (λ k. find_node k d ≡ none) (spool_files s.dir)
        (remove_all-absent (list s) s.dir) in
    ap sorted_names (
      none_stored d (spool_files d) (spool_files-AreStored d (Unique-remove_all (list s) s.dir u))
        (spool_files-remove_all (λ k. find_node k d ≡ none) (list s) s.dir absent))

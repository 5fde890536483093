-- ===== src/Transport/Spool/Listing.antt =====
-- internal/transport/spool.go: what `List` lists on a directory whose names are different, as `Unique`
-- says of its map.
use blackboxd.Prelude.{
  ◌≡◌, refl, ◌∙◌, sym, true, false, List, [], ◌∷◌, none, some, Bool-cases, inl, inr, map, All,
  All-map, ◌||◌, not,
}
use blackboxd.Bytes.{Bytes, bytes, equal}
use blackboxd.Bytes.Laws.{equal_iff}
use blackboxd.Bytes.Sorted.{bytes_ltb, insert_name, sorted_names}
use blackboxd.Transport.Spool.{
  Spool, Dir, Node, file, directory, find_node, remove_node, has_suffix, spool_files, read,
}
use blackboxd.Transport.Spool.Appends.{find_node-remove_node}

-- Every name of the directory is there once.
abbrev pub Unique : Dir → Type 0
Unique [] = Unit
Unique ((k, n) ∷ d) = (find_node k d ≡ none) × Unique d

-- A name stands for a file.
abbrev pub IsStored : Dir → Bytes → Type 0
IsStored d k = (b : Bytes) × (find_node k d ≡ some (file b))

-- No name is there twice.
abbrev pub Differ : List Bytes → Type 0
Differ [] = Unit
Differ (k ∷ ks) = All (λ j. equal k j ≡ false) ks × Differ ks

-- The contents of the files.
abbrev pub Bodies : List Bytes → List Bytes → Dir → Type 0
Bodies [] [] d = Unit
Bodies [] (b ∷ bs) d = ⊥
Bodies (k ∷ ks) [] d = ⊥
Bodies (k ∷ ks) (b ∷ bs) d = (find_node k d ≡ some (file b)) × Bodies ks bs d

-- A name that is found differs from one that is not.
stored-differs : (d : Dir) (k j : Bytes) → find_node k d ≡ none → IsStored d j → equal k j ≡ false
stored-differs d k j absent (b, found) = elim (Bool-cases (equal k j)) [
  | inl e ↦
      let same : k ≡ j = (equal_iff k j).0 e in
      let clash : some (file b) ≡ none = sym found ∙ rw same at absent in absurd (cc)
  | inr ne ↦ ne
]

IsStored-cons :
    (d : Dir) (k j : Bytes) (n : Node)
    → find_node k d ≡ none
    → IsStored d j
    → IsStored ((k, n) ∷ d) j
unfolding find_node
IsStored-cons d k j n absent (b, found) = (b, rw (stored-differs d k j absent (b, found)) found)

pub equal_refl : (k : Bytes) → equal k k ≡ true
equal_refl k = (equal_iff k k).1 refl

pub spool_files-AreStored : (d : Dir) → Unique d → All (IsStored d) (spool_files d)
unfolding spool_files find_node
spool_files-AreStored [] u = tt
spool_files-AreStored ((k, directory) ∷ d) (absent, u) =
    All-map (IsStored d) (IsStored ((k, directory) ∷ d)) (λ j. IsStored-cons d k j directory absent)
      (spool_files d) (spool_files-AreStored d u)
spool_files-AreStored ((k, file c) ∷ d) (absent, u) =
    let rest =
      All-map (IsStored d) (IsStored ((k, file c) ∷ d)) (λ j. IsStored-cons d k j (file c) absent)
        (spool_files d) (spool_files-AreStored d u) in
    elim (Bool-cases (has_suffix k (bytes ".tmp") || not (has_suffix k (bytes ".jsonl.gz")))) [
      | inl other ↦ rw other rest
      | inr kept ↦ rw kept ((c, rw (equal_refl k) refl), rest)
    ]

pub spool_files-Differ : (d : Dir) → Unique d → Differ (spool_files d)
unfolding spool_files
spool_files-Differ [] u = tt
spool_files-Differ ((k, directory) ∷ d) (absent, u) = spool_files-Differ d u
spool_files-Differ ((k, file c) ∷ d) (absent, u) =
    elim (Bool-cases (has_suffix k (bytes ".tmp") || not (has_suffix k (bytes ".jsonl.gz")))) [
      | inl other ↦ rw other (spool_files-Differ d u)
      | inr kept ↦ rw kept (
        All-map (IsStored d) (λ j. equal k j ≡ false) (λ j. stored-differs d k j absent)
            (spool_files d) (spool_files-AreStored d u),
        spool_files-Differ d u,
      )
    ]

-- `sort.Strings` keeps what holds of all names, and that they differ.
insert_name-All {ℓ} :
    (P : Bytes → Type ℓ) (x : Bytes) (l : List Bytes) → P x → All P l → All P (insert_name x l)
unfolding insert_name
insert_name-All P x [] px h = (px, tt)
insert_name-All P x (y ∷ l) px h = elim (Bool-cases (bytes_ltb y x)) [
  | inl lt ↦ rw lt (h.0, insert_name-All P x l px h.1)
  | inr ge ↦ rw ge (px, h)
]

pub sorted_names-All {ℓ} : (P : Bytes → Type ℓ) (l : List Bytes) → All P l → All P (sorted_names l)
unfolding sorted_names
sorted_names-All P [] h = tt
sorted_names-All P (x ∷ l) h = insert_name-All P x (sorted_names l) h.0 (sorted_names-All P l h.1)

All-insert_name {ℓ} :
    (P : Bytes → Type ℓ) (x : Bytes) (l : List Bytes) → All P (insert_name x l) → P x × All P l
unfolding insert_name
All-insert_name P x [] h = h
All-insert_name P x (y ∷ l) h = elim (Bool-cases (bytes_ltb y x)) [
  | inl lt ↦
      let h' : P y × All P (insert_name x l) = rw lt at h in
      let (px, pl) = All-insert_name P x l h'.1 in (px, (h'.0, pl))
  | inr ge ↦ rw ge at h
]

pub All-sorted_names {ℓ} : (P : Bytes → Type ℓ) (l : List Bytes) → All P (sorted_names l) → All P l
unfolding sorted_names
All-sorted_names P [] h = tt
All-sorted_names P (x ∷ l) h =
    let (px, pl) = All-insert_name P x (sorted_names l) h in (px, All-sorted_names P l pl)

equal_symm : (j k : Bytes) → equal k j ≡ false → equal j k ≡ false
equal_symm j k h = elim (Bool-cases (equal j k)) [
  | inl e ↦
      let same : k ≡ j = sym ((equal_iff j k).0 e) in
      let e' : equal k j ≡ true = (equal_iff k j).1 same in absurd (cc)
  | inr ne ↦ ne
]

insert_name-Differ :
    (x : Bytes) (l : List Bytes)
    → All (λ j. equal x j ≡ false) l
    → Differ l
    → Differ (insert_name x l)
unfolding insert_name
insert_name-Differ x [] h ds = (tt, tt)
insert_name-Differ x (y ∷ l) h ds = elim (Bool-cases (bytes_ltb y x)) [
  | inl lt ↦ rw lt (
    insert_name-All (λ j. equal y j ≡ false) x l (equal_symm y x h.0) ds.0,
    insert_name-Differ x l h.1 ds.1,
  )
  | inr ge ↦ rw ge (h, ds)
]

pub sorted_names-Differ : (l : List Bytes) → Differ l → Differ (sorted_names l)
unfolding sorted_names
sorted_names-Differ [] ds = tt
sorted_names-Differ (x ∷ l) ds =
    insert_name-Differ x (sorted_names l) (sorted_names-All (λ j. equal x j ≡ false) l ds.0)
      (sorted_names-Differ l ds.1)

-- The contents of stored files.
pub Bodies-exist :
    (d : Dir) (ks : List Bytes) → All (IsStored d) ks → (bs : List Bytes) × Bodies ks bs d
Bodies-exist d [] h = ([], tt)
Bodies-exist d (k ∷ ks) h = let (bs, all) = Bodies-exist d ks h.1 in (h.0.0 ∷ bs, (h.0.1, all))

pub read-file :
    (k : Bytes) (s : Spool) {c : Bytes} → find_node k s.dir ≡ some (file c) → read k s ≡ some c
unfolding read
read-file k s e = rw (e, read) refl

pub read-Bodies :
    (s : Spool) (ks bs : List Bytes) → Bodies ks bs s.dir → map (λ k. read k s) ks ≡ map some bs
read-Bodies s [] [] h = refl
read-Bodies s [] (b ∷ bs) h = absurd h
read-Bodies s (k ∷ ks) [] h = absurd h
read-Bodies s (k ∷ ks) (b ∷ bs) (here, h) = rw (read-file k s here, read-Bodies s ks bs h) refl

-- The contents of other files are the same without one.
pub Bodies-remove_node :
    (k : Bytes) (d : Dir) (ks bs : List Bytes)
    → All (λ j. equal k j ≡ false) ks
    → Bodies ks bs d
    → Bodies ks bs (remove_node k d)
Bodies-remove_node k d [] [] ne h = tt
Bodies-remove_node k d [] (b ∷ bs) ne h = absurd h
Bodies-remove_node k d (j ∷ ks) [] ne h = absurd h
Bodies-remove_node k d (j ∷ ks) (b ∷ bs) ne (here, h) =
    (find_node-remove_node k j d ∙ rw ne.0 here, Bodies-remove_node k d ks bs ne.1 h)

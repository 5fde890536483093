-- ===== src/Transport/Spool/Eviction.antt =====
-- What `evict` removes, against the cap.
use mathlib.Core.List.{Perm}
use blackboxd.Prelude.{
  ℕ, zero, suc, ◌+◌, ◌-◌, ◌≤◌, ◌<◌, ◌≡◌, refl, ap, ◌∙◌, sym, inl, inr, Bool, true, false, ◌||◌,
  List, [], ◌∷◌, ◌++◌, some, leb, if◌then◌else◌, Bool-cases, length, take, drop, All,
  take-append-drop, arith,
}
use blackboxd.Bytes.{Bytes, equal}
use blackboxd.Bytes.Laws.{equal_iff}
use blackboxd.Transport.Spool.Sorting.{AreAscending, sort_items_lem}
use blackboxd.Transport.Spool.{
  Spool, file, directory, Dir, find_node, remove_node, items, total_size, insert_item, sort_items,
  evict_loop, remove_all, evict,
}

abbrev never : Bytes → Bool
never k = false

abbrev names : List (Bytes × ℕ) → List Bytes
names [] = []
names ((k, n) ∷ l) = k ∷ names l

-- The number of files that have to go before the rest fits.
unfoldable pub excess : ℕ → List (Bytes × ℕ) → ℕ
excess cap [] = 0
excess cap ((k, n) ∷ l) =
    let more = excess cap l in if leb (total_size ((k, n) ∷ l)) cap then 0 else suc more

evict_loop-excess :
    (cap : ℕ) (l : List (Bytes × ℕ))
    → evict_loop never cap (total_size l) l ≡ names (take (excess cap l) l)
unfolding evict_loop excess total_size
evict_loop-excess cap [] = refl
evict_loop-excess cap ((k, n) ∷ l) = elim (Bool-cases (leb (n + total_size l) cap)) [
  | inl fits ↦ rw fits refl
  | inr big ↦
      let rest : n + total_size l - n ≡ total_size l = omega arith in
      rw (big, rest) (ap (◌∷◌ k) (evict_loop-excess cap l))
]

drop-excess_fits : (cap : ℕ) (l : List (Bytes × ℕ)) → total_size (drop (excess cap l) l) ≤ cap
unfolding excess total_size
drop-excess_fits cap [] = omega arith
drop-excess_fits cap ((k, n) ∷ l) = elim (Bool-cases (leb (n + total_size l) cap)) [
  | inl fits ↦ rw fits (ground arith)
  | inr big ↦ rw big (drop-excess_fits cap l)
]

drop-excess_least :
    (cap : ℕ) (l : List (Bytes × ℕ)) (j : ℕ) → j < excess cap l → cap < total_size (drop j l)
unfolding excess total_size
drop-excess_least cap [] j h = absurd (omega arith)
drop-excess_least cap ((k, n) ∷ l) zero h = ground arith
drop-excess_least cap ((k, n) ∷ l) (suc j) h = ground (arith, drop-excess_least cap l j)

-- The size of what is left without some names.
mem_name : Bytes → List Bytes → Bool
mem_name k [] = false
mem_name k (j ∷ ks) = equal j k || mem_name k ks

without : List Bytes → List (Bytes × ℕ) → ℕ
without ks [] = 0
without ks ((k, n) ∷ l) = (if mem_name k ks then 0 else n) + without ks l

without-nil : (l : List (Bytes × ℕ)) → without [] l ≡ total_size l
unfolding without mem_name total_size
without-nil [] = refl
without-nil ((k, n) ∷ l) = omega (arith, without-nil l)

without-remove_node :
    (k : Bytes) (ks : List Bytes) (d : Dir)
    → without ks (items (remove_node k d)) ≡ without (k ∷ ks) (items d)
unfolding without mem_name items remove_node
without-remove_node k ks [] = refl
without-remove_node k ks ((j, file c) ∷ d) =
    ground (arith, equal_iff j k, equal_iff k j, without-remove_node k ks d)
without-remove_node k ks ((j, directory) ∷ d) = ground (arith, without-remove_node k ks d)

without-remove_all :
    (ks : List Bytes) (d : Dir) → total_size (items (remove_all ks d)) ≡ without ks (items d)
unfolding remove_all
without-remove_all [] d = sym (without-nil (items d))
without-remove_all (k ∷ ks) d = without-remove_all ks (remove_node k d) ∙ without-remove_node k ks d

without-insert_item :
    (ks : List Bytes) (x : Bytes × ℕ) (l : List (Bytes × ℕ))
    → without ks (insert_item x l) ≡ without ks (x ∷ l)
unfolding without insert_item
without-insert_item ks x [] = refl
without-insert_item ks x (y ∷ l) = ground (arith, without-insert_item ks x l)

without-sort_items :
    (ks : List Bytes) (l : List (Bytes × ℕ)) → without ks (sort_items l) ≡ without ks l
unfolding sort_items without
without-sort_items ks [] = refl
without-sort_items ks ((k, n) ∷ l) =
    without-insert_item ks (k, n) (sort_items l)
    ∙ ap (λ (t : ℕ). (if mem_name k ks then 0 else n) + t) (without-sort_items ks l)

abbrev Covers : List Bytes → List (Bytes × ℕ) → Type 0
Covers ks = All (λ x. mem_name x.0 ks ≡ true)

Covers-cons : (j : Bytes) (ks : List Bytes) (l : List (Bytes × ℕ)) → Covers ks l → Covers (j ∷ ks) l
unfolding mem_name
Covers-cons j ks [] h = tt
Covers-cons j ks (x ∷ l) h = (ground arith, Covers-cons j ks l h.1)

Covers-names : (l : List (Bytes × ℕ)) → Covers (names l) l
unfolding mem_name
Covers-names [] = tt
Covers-names ((k, n) ∷ l) =
    (rw ((equal_iff k k).1 refl) refl, Covers-cons k (names l) l (Covers-names l))

without-le : (ks : List Bytes) (l : List (Bytes × ℕ)) → without ks l ≤ total_size l
unfolding without total_size
without-le ks [] = omega arith
without-le ks ((k, n) ∷ l) = ground (arith, without-le ks l)

without-Covers :
    (ks : List Bytes) (a b : List (Bytes × ℕ)) → Covers ks a → without ks (a ++ b) ≤ total_size b
unfolding without
without-Covers ks [] b h = without-le ks b
without-Covers ks ((k, n) ∷ a) b h = rw h.0 (omega (arith, without-Covers ks a b h.1))

total_size-sort_items : (l : List (Bytes × ℕ)) → total_size (sort_items l) ≡ total_size l
total_size-sort_items l = sym (without-nil (sort_items l)) ∙ without-sort_items [] l ∙ without-nil l

-- The size that is left where the first `k` names of the sorted items are removed.
left-le :
    (k : ℕ) (d : Dir)
    → let sorted = sort_items (items d) in
      total_size (items (remove_all (names (take k sorted)) d)) ≤ total_size (drop k sorted)
left-le k d =
    let sorted = sort_items (items d) in
    let gone = names (take k sorted) in
    rw (without-remove_all gone d, sym (without-sort_items gone (items d)))
      (rw (take-append-drop k sorted) at
        (without-Covers gone (take k sorted) (drop k sorted) (Covers-names (take k sorted))))

-- An eviction in which every removal works: with the files in the ascending order of their names, it
-- removes the first ones, counts them, and brings the spool under its cap; one file fewer would not
-- have been enough.
pub record Evicted (s s' : Spool) : Type 0 where
  pub order : List (Bytes × ℕ)
  pub same_files : Perm order (items s.dir)
  pub ascending : AreAscending order
  pub gone : ℕ
  pub dir_is : s'.dir ≡ remove_all (names (take gone order)) s.dir
  pub counted : s'.drops ≡ s.drops + length (names (take gone order))
  pub under_cap : total_size (items s'.dir) ≤ s.max_bytes
  pub least : (j : ℕ) → j < gone → s.max_bytes < total_size (drop j order)

Evicted-none : (s : Spool) → leb (total_size (items s.dir)) s.max_bytes ≡ true → Evicted s s
unfolding remove_all
Evicted-none s fits =
    let (same, ascending) = sort_items_lem (items s.dir) in
    record {
      order = sort_items (items s.dir);
      same_files = same;
      ascending = ascending;
      gone = 0;
      dir_is = refl;
      counted = omega arith;
      under_cap = ground arith;
      least = λ j h. absurd (omega arith);
    }

-- An eviction on a directory where every removal works: with the files in the ascending order of
-- the bytes of their names, it removes the first of them and counts them, brings the spool under
-- its cap, and removes no more files than that needs.
pub evict-Evicted : (s : Spool) → Evicted s (evict (λ k. false) s)
unfolding evict
evict-Evicted s = elim (Bool-cases (leb (total_size (items s.dir)) s.max_bytes)) [
  | inl fits ↦ rw fits (Evicted-none s fits)
  | inr big ↦
      let sorted = sort_items (items s.dir) in
      let (same, ascending) = sort_items_lem (items s.dir) in
      let size = excess s.max_bytes sorted in
      let small : total_size (items (remove_all (names (take size sorted)) s.dir)) ≤ s.max_bytes =
        omega (arith, left-le size s.dir, drop-excess_fits s.max_bytes sorted) in
      rw (big, sym (total_size-sort_items (items s.dir)), evict_loop-excess s.max_bytes sorted)
        (record {
          order = sorted;
          same_files = same;
          ascending = ascending;
          gone = size;
          dir_is = refl;
          counted = refl;
          under_cap = small;
          least = drop-excess_least s.max_bytes sorted;
        })
]

-- No file that is found is larger than all that is there.
pub find_node-size :
    (k c : Bytes) (d : Dir) → find_node k d ≡ some (file c) → length c ≤ total_size (items d)
unfolding find_node items total_size
find_node-size k c [] h = absurd (cc)
find_node-size k c ((j, file x) ∷ d) h = ground (arith, find_node-size k c d)
find_node-size k c ((j, directory) ∷ d) h = ground (arith, find_node-size k c d)

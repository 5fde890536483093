-- ===== src/Transport/Spool/Keeps.antt =====
-- What an `Append` keeps on every path of the file system, as long as its eviction removes nothing.
use blackboxd.Prelude.{
  ℕ, ◌+◌, ◌≤◌, ◌≡◌, ◌≢◌, refl, ap, ◌⊎◌, inl, inr, Bool, true, false, List, [], ◌∷◌, some, leb,
  if◌then◌else◌, Bool-cases, length, arith,
}
use blackboxd.Bytes.{Bytes}
use blackboxd.Bytes.Laws.{equal_iff}
use blackboxd.Transport.Spool.Names.{spool_name}
use blackboxd.Transport.Spool.{
  Spool, file, find_node, items, total_size, remove_all, evict, Weather, WriteFault, no_fault,
  open_fails, write_fails, sync_fails, close_fails, rename_fails, Dir, append, write_file,
}
use blackboxd.Transport.Spool.Appends.{
  find_node-put_file, find_node-remove_node, next_tmp, append_fails, written,
}

remove_all-none :
    (s : Spool) (gone : List Bytes)
    → s.drops + length gone ≡ s.drops
    → remove_all gone s.dir ≡ s.dir
unfolding remove_all
remove_all-none s [] h = refl
remove_all-none s (k ∷ ks) h = absurd (omega arith)

-- An eviction that counts nothing removes nothing.
evict_unless_drops :
    (fails : Bytes → Bool) (s : Spool) → (evict fails s).drops ≡ s.drops → evict fails s ≡ s
unfolding evict
evict_unless_drops fails s h = elim (Bool-cases (leb (total_size (items s.dir)) s.max_bytes)) [
  | inl fits ↦ rw fits refl
  | inr big ↦
      rw (big, remove_all-none s _ (rw big at h)) (ap (λ n. record s { drops = n }) (rw big at h))
]

-- The end of an Append whose batch is in place.
settle : Bool → (Bytes → Bool) → Spool → Spool
settle readable fails s = if readable then evict fails s else s

settle_unless_drops :
    (readable : Bool) (fails : Bytes → Bool) (s : Spool)
    → (settle readable fails s).drops ≡ s.drops
    → settle readable fails s ≡ s
unfolding settle
settle_unless_drops true fails s h = evict_unless_drops fails s h
settle_unless_drops false fails s h = refl

settle-counters :
    (readable : Bool) (fails : Bytes → Bool) (s : Spool)
    → let s' = settle readable fails s in (s'.seq ≡ s.seq) × (s.drops ≤ s'.drops)
unfolding settle evict
settle-counters true fails s = ground arith
settle-counters false fails s = ground arith

write_file-false :
    (w : Weather) (f : WriteFault) (final payload : Bytes) (d : Dir)
    → (f ≡ no_fault) ⊎ ((f ≢ no_fault) × ((write_file w f final payload d).0 ≡ false))
unfolding write_file
write_file-false w no_fault final payload d = inl refl
write_file-false w open_fails final payload d = inr (λ e. absurd (cc), refl)
write_file-false w write_fails final payload d = inr (λ e. absurd (cc), refl)
write_file-false w sync_fails final payload d = inr (λ e. absurd (cc), refl)
write_file-false w close_fails final payload d = inr (λ e. absurd (cc), refl)
write_file-false w rename_fails final payload d = inr (λ e. absurd (cc), refl)

-- The two ends of an Append.
data Appended (w : Weather) (now : ℕ) (payload : Bytes) (s : Spool) : Bool × Spool → Type 0 where
  in_place :
      {out : Bool × Spool}
      → out ≡ (true, settle w.dir_readable w.remove_fails (written now payload s))
      → Appended w now payload s out
  failed :
      {out : Bool × Spool}
      → w.fault ≢ no_fault
      → out.0 ≡ false
      → out.1.seq ≡ s.seq + 1
      → out.1.drops ≡ s.drops
      → Appended w now payload s out

append-Appended :
    (w : Weather) (now : ℕ) (payload : Bytes) (s : Spool)
    → Appended w now payload s (append w now payload s)
unfolding append settle written write_file
append-Appended w now payload s =
    elim (write_file-false w w.fault (spool_name now (s.seq + 1)) payload s.dir) [
      | inl calm' ↦ in_place (rw calm' refl)
      | inr (bad, fails) ↦ failed bad (rw fails refl) (rw fails refl) (rw fails refl)
    ]

-- The number grows by one, whatever happens, and the drops do not fall.
pub append-counters :
    (w : Weather) (now : ℕ) (payload : Bytes) (s : Spool)
    → let s' = (append w now payload s).1 in (s'.seq ≡ s.seq + 1) × (s.drops ≤ s'.drops)
unfolding written
append-counters w now payload s = elim (append-Appended w now payload s) [
  | in_place e ↦ rw e (settle-counters w.dir_readable w.remove_fails (written now payload s))
  | failed bad unwritten grown same ↦ (grown, omega (arith, same))
]

-- If an Append counts no drop, a file that is not its own is as before.
pub append_keeps_others :
    (w : Weather) (now : ℕ) (payload : Bytes) (s : Spool) (k : Bytes)
    → (append w now payload s).1.drops ≡ s.drops
    → k ≢ spool_name now (s.seq + 1)
    → k ≢ next_tmp now s
    → find_node k (append w now payload s).1.dir ≡ find_node k s.dir
unfolding written
append_keeps_others w now payload s k same not_it not_tmp = elim (append-Appended w now payload s) [
  | in_place e ↦
      let kept =
        settle_unless_drops w.dir_readable w.remove_fails (written now payload s) (rw e at same) in
      rw (e, kept, find_node-put_file, find_node-remove_node)
        (ground (arith, equal_iff (spool_name now (s.seq + 1)) k, equal_iff (next_tmp now s) k))
  | failed bad unwritten grown same' ↦ ((append_fails w now payload s k not_tmp).0 bad).1
]

-- If an Append returns nil and counts no drop, its batch can be found.
pub append_stores :
    (w : Weather) (now : ℕ) (payload : Bytes) (s : Spool)
    → (append w now payload s).0 ≡ true
    → (append w now payload s).1.drops ≡ s.drops
    → find_node (spool_name now (s.seq + 1)) (append w now payload s).1.dir ≡ some (file payload)
unfolding written
append_stores w now payload s stored same = elim (append-Appended w now payload s) [
  | in_place e ↦
      let kept =
        settle_unless_drops w.dir_readable w.remove_fails (written now payload s) (rw e at same) in
      rw (e, kept, find_node-put_file)
        (ground (arith, equal_iff (spool_name now (s.seq + 1)) (spool_name now (s.seq + 1))))
  | failed bad unwritten grown same' ↦ absurd (cc)
]

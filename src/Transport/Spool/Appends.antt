-- ===== src/Transport/Spool/Appends.antt =====
-- What `Append` leaves in the directory: on success, on each error path, and for a batch that is
-- larger than the cap.
use blackboxd.Prelude.{
  ℕ, ◌+◌, ◌≤◌, ◌<◌, ◌≡◌, ◌≢◌, refl, ◌∙◌, true, false, [], ◌∷◌, ◌++◌, none, some, leb, if◌then◌else◌,
  length, arith,
}
use blackboxd.Bytes.{Bytes, bytes, equal}
use blackboxd.Bytes.Laws.{equal_iff}
use blackboxd.Transport.Spool.Names.{spool_name}
use blackboxd.Transport.Spool.{
  Spool, file, Dir, find_node, put_file, remove_node, items, total_size, evict, Weather, WriteFault,
  no_fault, open_fails, drop_tmp, write_file, append,
}
use blackboxd.Transport.Spool.Eviction.{evict-Evicted, find_node-size}

pub find_node-put_file :
    (k j c : Bytes) (d : Dir)
    → find_node j (put_file k c d) ≡ (if equal k j then some (file c) else find_node j d)
unfolding find_node put_file
find_node-put_file k j c [] = refl
find_node-put_file k j c ((i, n) ∷ d) =
    ground (arith, equal_iff k j, equal_iff i k, equal_iff i j, find_node-put_file k j c d)

pub find_node-remove_node :
    (k j : Bytes) (d : Dir)
    → find_node j (remove_node k d) ≡ (if equal k j then none else find_node j d)
unfolding find_node remove_node
find_node-remove_node k j [] = ground arith
find_node-remove_node k j ((i, n) ∷ d) =
    ground (arith, equal_iff k j, equal_iff i k, equal_iff i j, find_node-remove_node k j d)

-- The temporary name of the next batch.
abbrev pub next_tmp : ℕ → Spool → Bytes
next_tmp now s = spool_name now (s.seq + 1) ++ bytes ".tmp"

drop_tmp_keeps :
    (w : Weather) (tmp k : Bytes) (d : Dir)
    → k ≢ tmp
    → find_node k (drop_tmp w tmp d) ≡ find_node k d
unfolding drop_tmp
drop_tmp_keeps w tmp k d ne =
    ground
      (arith, equal_iff tmp k, find_node-put_file tmp k w.partial d, find_node-remove_node tmp k d)

write_file_fails :
    (w : Weather) (f : WriteFault) (final payload k : Bytes) (d : Dir)
    → f ≢ no_fault
    → k ≢ final ++ bytes ".tmp"
    → let (written, d') = write_file w f final payload d in
      (written ≡ false) × (find_node k d' ≡ find_node k d)
unfolding write_file
write_file_fails w no_fault final payload k d bad ne = absurd (bad refl)
write_file_fails w open_fails final payload k d bad ne = (refl, refl)
write_file_fails w _ final payload k d bad ne =
    (refl, drop_tmp_keeps w (final ++ bytes ".tmp") k d ne)

-- An Append whose open, write, sync, close or rename fails returns an error, changes no file but
-- its own temporary one, and counts no drop. Without such a failure it returns nil, whichever
-- calls of its eviction fail; if the eviction cannot read the directory, the batch can be found
-- under its name, every other file but the temporary one is as before, and no drop is counted.
pub append_fails :
    (w : Weather) (now : ℕ) (payload : Bytes) (s : Spool) (k : Bytes)
    → k ≢ next_tmp now s
    → let (stored, s') = append w now payload s in
      (w.fault ≢ no_fault
        → (stored ≡ false) × (find_node k s'.dir ≡ find_node k s.dir) × (s'.drops ≡ s.drops))
      × (w.fault ≡ no_fault → stored ≡ true)
      × (w.fault ≡ no_fault
          → w.dir_readable ≡ false
          → (find_node k s'.dir ≡ (
              if equal (spool_name now (s.seq + 1)) k
              then some (file payload)
              else find_node k s.dir))
            × (s'.drops ≡ s.drops))
unfolding append write_file
append_fails w now payload s k ne = (
  λ bad.
      let (failed, kept) =
        write_file_fails w w.fault (spool_name now (s.seq + 1)) payload k s.dir bad ne in
      rw failed (refl, kept, refl),
  λ good. rw good refl,
  λ good unreadable.
      rw (good, unreadable)
        (
          find_node-put_file (spool_name now (s.seq + 1)) k payload _
              ∙ rw find_node-remove_node (ground (arith, equal_iff (next_tmp now s) k)),
          refl,
        ),
)

-- No call fails.
abbrev pub calm : Weather
calm = record {
  fault = no_fault;
  tmp_removed = true;
  partial = [];
  dir_readable = true;
  remove_fails = λ k. false;
}

-- The spool as the eviction of an `Append` finds it.
unfoldable pub written : ℕ → Bytes → Spool → Spool
written now payload s = record s {
  dir = put_file (spool_name now (s.seq + 1)) payload (remove_node (next_tmp now s) s.dir);
  seq = s.seq + 1;
}

append-calm :
    (now : ℕ) (payload : Bytes) (s : Spool)
    → append calm now payload s ≡ (true, evict (λ k. false) (written now payload s))
unfolding append write_file written
append-calm now payload s = refl

-- If the spool with the new batch is not over its cap, an Append without a fault returns nil, the
-- batch can be found under its name, every other file but the temporary one is as before, and
-- nothing is dropped.
pub append_keeps :
    (now : ℕ) (payload : Bytes) (s : Spool) (k : Bytes)
    → total_size (items (written now payload s).dir) ≤ s.max_bytes
    → k ≢ next_tmp now s
    → let (stored, s') = append calm now payload s in
      (stored ≡ true)
      × (find_node k s'.dir ≡ (
          if equal (spool_name now (s.seq + 1)) k then some (file payload) else find_node k s.dir))
      × (s'.drops ≡ s.drops)
unfolding evict written
append_keeps now payload s k fits ne =
    let under : leb (total_size (items (written now payload s).dir)) s.max_bytes ≡ true =
      ground arith in
    rw (append-calm now payload s, under)
      (
        refl,
        find_node-put_file (spool_name now (s.seq + 1)) k payload _
            ∙ rw find_node-remove_node (ground (arith, equal_iff (next_tmp now s) k)),
        refl,
      )

-- After an Append without a fault the files of the spool are together no larger than the cap,
-- whatever their size was before.
pub append_under_cap :
    (now : ℕ) (payload : Bytes) (s : Spool)
    → total_size (items (append calm now payload s).1.dir) ≤ s.max_bytes
unfolding written
append_under_cap now payload s =
    rw (append-calm now payload s) (evict-Evicted (written now payload s)).under_cap

-- An Append without a fault of a batch that is larger than the cap returns nil, and afterwards no
-- file holds the batch.
pub append_oversized :
    (now : ℕ) (payload : Bytes) (s : Spool) (k : Bytes)
    → s.max_bytes < length payload
    → let (stored, s') = append calm now payload s in
      (stored ≡ true) × (find_node k s'.dir ≢ some (file payload))
append_oversized now payload s k big = (
  rw (append-calm now payload s) refl,
  λ found. absurd (omega (arith, append_under_cap now payload s, find_node-size k payload _ found)),
)

-- ===== src/Transport/Spool.antt =====
-- internal/transport/spool.go: `Spool`, the directory of batches that could not be published.
-- The file system is a map from names to nodes; which of its calls fail is an argument. A path is the
-- name under the spool's directory. The mutex makes each method one function.
pub mod Names
pub mod Numbering
pub mod Sorting
pub mod Eviction
pub mod Appends
pub mod Keeps
pub mod Listing
pub mod Emptied
use blackboxd.Prelude.{
  ℕ, zero, suc, ◌+◌, ◌-◌, Bool, true, false, not, ◌&&◌, ◌||◌, List, [], ◌∷◌, ◌++◌, Option, none,
  some, Result, ok, err, ltb, leb, ◌==◌, if◌then◌else◌, length, drop,
}
use blackboxd.Prelude.Int.{ℤ, pos, negsuc}
use blackboxd.Bytes.{Bytes, bytes, equal, has_prefix}
use blackboxd.Bytes.Sorted.{sorted_names, bytes_ltb}
use Names.{spool_name}

-- What a name stands for in the directory.
pub data Node : Type 0 where
  file : Bytes → Node
  directory : Node

abbrev pub Dir : Type 0
Dir = List (Bytes × Node)

unfoldable pub find_node : Bytes → Dir → Option Node
find_node k [] = none
find_node k ((j, n) ∷ d) = if equal j k then some n else find_node k d

-- A file is written whole, over one of the same name.
unfoldable pub put_file : Bytes → Bytes → Dir → Dir
put_file k c [] = (k, file c) ∷ []
put_file k c ((j, n) ∷ d) = if equal j k then (k, file c) ∷ d else (j, n) ∷ put_file k c d

unfoldable pub remove_node : Bytes → Dir → Dir
remove_node k [] = []
remove_node k ((j, n) ∷ d) = let rest = remove_node k d in if equal j k then rest else (j, n) ∷ rest

-- `Spool` with its directory.
pub record Spool : Type 0 where
  pub dir : Dir
  pub max_bytes : ℕ
  pub seq : ℕ
  pub drops : ℕ

-- The size cap of a config: `NewSpool` puts 100 MiB for one that is not positive.
unfoldable pub cap_of_config : ℤ → ℕ
cap_of_config (pos zero) = 104857600
cap_of_config (pos (suc n)) = suc n
cap_of_config (negsuc n) = 104857600

-- `NewSpool`, on a directory that was there or was made, for a name that is not empty.
unfoldable pub new_spool : Bytes → Dir → ℤ → Option Spool
new_spool name dir max_bytes =
    if equal name []
    then none
    else some (record { dir = dir; max_bytes = cap_of_config max_bytes; seq = 0; drops = 0 })

-- The entries that `evict` counts: every node that is no directory, with its size.
unfoldable pub items : Dir → List (Bytes × ℕ)
items [] = []
items ((k, file c) ∷ d) = (k, length c) ∷ items d
items ((k, directory) ∷ d) = items d

unfoldable pub total_size : List (Bytes × ℕ) → ℕ
total_size [] = 0
total_size ((k, n) ∷ l) = n + total_size l

-- `sort.Slice` by name: an insertion in front of the first greater name.
unfoldable pub insert_item : Bytes × ℕ → List (Bytes × ℕ) → List (Bytes × ℕ)
insert_item x [] = x ∷ []
insert_item x (y ∷ l) = if bytes_ltb y.0 x.0 then y ∷ insert_item x l else x ∷ y ∷ l

unfoldable pub sort_items : List (Bytes × ℕ) → List (Bytes × ℕ)
sort_items [] = []
sort_items (x ∷ l) = insert_item x (sort_items l)

-- The last loop of `evict`, with the running total: the names that it removes. `fails` tells which
-- calls of `os.Remove` fail; such a file is passed over.
unfoldable pub evict_loop : (Bytes → Bool) → ℕ → ℕ → List (Bytes × ℕ) → List Bytes
evict_loop fails cap total [] = []
evict_loop fails cap total ((k, n) ∷ l) =
    let passed = evict_loop fails cap total l in
    let later = evict_loop fails cap (total - n) l in
    if leb total cap then [] else if fails k then passed else k ∷ later

unfoldable pub remove_all : List Bytes → Dir → Dir
remove_all [] d = d
remove_all (k ∷ ks) d = remove_all ks (remove_node k d)

-- `evict`, on a directory that can be read.
unfoldable pub evict : (Bytes → Bool) → Spool → Spool
evict fails s =
    let found = items s.dir in
    if leb (total_size found) s.max_bytes
    then s
    else (let gone = evict_loop fails s.max_bytes (total_size found) (sort_items found) in
        record s { dir = remove_all gone s.dir; drops = s.drops + length gone })

-- What the file system does to one `Append`: the call that fails, whether a failed attempt's file is
-- removed, what a failed write left in it, and how the eviction fares.
pub data WriteFault : Type 0 where
  no_fault open_fails write_fails sync_fails close_fails rename_fails : WriteFault

pub record Weather : Type 0 where
  pub fault : WriteFault
  pub tmp_removed : Bool
  pub partial : Bytes
  pub dir_readable : Bool
  pub remove_fails : Bytes → Bool

-- `os.Remove(tmp)` on the error paths.
unfoldable pub drop_tmp : Weather → Bytes → Dir → Dir
drop_tmp w tmp d = if w.tmp_removed then remove_node tmp d else put_file tmp w.partial d

-- The writing part of `Append`: whether it succeeded, and the directory.
unfoldable pub write_file : Weather → WriteFault → Bytes → Bytes → Dir → Bool × Dir
write_file w no_fault final payload d =
    (true, put_file final payload (remove_node (final ++ bytes ".tmp") d))
write_file w open_fails final payload d = (false, d)
write_file w write_fails final payload d = (false, drop_tmp w (final ++ bytes ".tmp") d)
write_file w sync_fails final payload d = (false, drop_tmp w (final ++ bytes ".tmp") d)
write_file w close_fails final payload d = (false, drop_tmp w (final ++ bytes ".tmp") d)
write_file w rename_fails final payload d = (false, drop_tmp w (final ++ bytes ".tmp") d)

-- `Append` at the time `now` in nanoseconds: whether it returned nil, and the spool. An eviction
-- that cannot read the directory is only logged.
unfoldable pub append : Weather → ℕ → Bytes → Spool → Bool × Spool
append w now payload s =
    let name = spool_name now (s.seq + 1) in
    let (written, d) = write_file w w.fault name payload s.dir in
    let s' = record s { dir = d; seq = s.seq + 1 } in
    if written then (true, if w.dir_readable then evict w.remove_fails s' else s') else (false, s')

-- `strings.HasSuffix`.
unfoldable pub has_suffix : Bytes → Bytes → Bool
has_suffix s suffix =
    leb (length suffix) (length s) && equal (drop (length s - length suffix) s) suffix

-- The names that `List` keeps.
unfoldable pub spool_files : Dir → List Bytes
spool_files [] = []
spool_files ((k, directory) ∷ d) = spool_files d
spool_files ((k, file c) ∷ d) =
    if has_suffix k (bytes ".tmp") || not (has_suffix k (bytes ".jsonl.gz"))
    then spool_files d
    else k ∷ spool_files d

-- `List`, oldest first.
unfoldable pub list : Spool → List Bytes
list s = sorted_names (spool_files s.dir)

-- `Read`; `none` is an error.
unfoldable pub read : Bytes → Spool → Option Bytes
read k s = elim (find_node k s.dir) [
  | none ↦ none
  | some node ↦ elim node [ file c ↦ some c | directory ↦ none ]
]

-- `Delete`.
unfoldable pub delete : Bytes → Spool → Spool
delete k s = record s { dir = remove_node k s.dir }

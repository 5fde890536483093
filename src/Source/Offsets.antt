-- ===== src/Source/Offsets.antt =====
-- internal/source/offset.go: `OffsetStore`. A path is the name under the store's directory; which
-- call of a save fails is an argument, and so are the two functions of encoding/json.
use blackboxd.Prelude.{
  ◌≡◌, refl, ◌∙◌, Bool, true, false, List, [], ◌++◌, Option, none, some, Result, ok, err,
  if◌then◌else◌,
}
use blackboxd.Prelude.Int.{pos}
use blackboxd.Bytes.{Bytes, bytes}
use blackboxd.Bytes.Laws.{equal_iff}
use blackboxd.Bytes.Maps.{get, put, remove, get-put}
use blackboxd.Source.File.{Offset, SourceError, os_error}

-- The call of `Save` that fails.
pub data SaveFault : Type 0 where
  saved open_tmp write_tmp sync_tmp close_tmp rename_tmp : SaveFault

-- What is left of a temporary file when `os.Remove` of it fails.
pub record Leftover : Type 0 where
  pub removed : Bool
  pub partial : Bytes

unfoldable pub drop_leftover : Leftover → Bytes → List (Bytes × Bytes) → List (Bytes × Bytes)
drop_leftover w tmp dir = if w.removed then remove tmp dir else put tmp w.partial dir

unfoldable pub offset_file : Bytes → Bytes
offset_file name = name ++ bytes ".offset"

unfoldable pub tmp_file : Bytes → Bytes
tmp_file name = offset_file name ++ bytes ".tmp"

-- The writing part of `Save`: whether it returns nil, and the directory.
unfoldable pub save_body :
    SaveFault → Leftover → Bytes → Bytes → List (Bytes × Bytes) → Bool × List (Bytes × Bytes)
save_body saved w name body dir = (true, put (offset_file name) body (remove (tmp_file name) dir))
save_body open_tmp w name body dir = (false, dir)
save_body write_tmp w name body dir = (false, drop_leftover w (tmp_file name) dir)
save_body sync_tmp w name body dir = (false, drop_leftover w (tmp_file name) dir)
save_body close_tmp w name body dir = (false, drop_leftover w (tmp_file name) dir)
save_body rename_tmp w name body dir = (false, drop_leftover w (tmp_file name) dir)

module _ (marshal : Offset → Option Bytes) (unmarshal : Bytes → Option Offset) where
  -- `Save`.
  unfoldable pub save :
      SaveFault → Leftover → Bytes → Offset → List (Bytes × Bytes) → Bool × List (Bytes × Bytes)
  save fault w name off dir = elim (marshal off) [
    | none ↦ (false, dir)
    | some body ↦ save_body fault w name body dir
  ]

  -- `Load`, for a file that can be read; a missing one is the zero offset.
  unfoldable pub load_offset : Bytes → List (Bytes × Bytes) → Result SourceError Offset
  load_offset name dir = elim (get (offset_file name) dir) [
    | none ↦ ok (record { path = []; offset = pos 0; inode = 0 })
    | some body ↦ elim (unmarshal body) [ none ↦ err os_error | some off ↦ ok off ]
  ]

  -- An offset that is saved is loaded again, if its encoding is decoded to it.
  pub load_offset-save :
      (w : Leftover) (name : Bytes) (off : Offset) (body : Bytes) (dir : List (Bytes × Bytes))
      → marshal off ≡ some body
      → unmarshal body ≡ some off
      → load_offset name (save saved w name off dir).1 ≡ ok off
  unfolding save save_body load_offset
  load_offset-save w name off body dir h k =
      let dir' = put (offset_file name) body (remove (tmp_file name) dir) in
      let there : (save saved w name off dir).1 ≡ dir' = rw (h, save) refl in
      let same = (equal_iff (offset_file name) (offset_file name)).1 refl in
      let found : get (offset_file name) dir' ≡ some body =
        get-put (offset_file name) (offset_file name) body (remove (tmp_file name) dir)
        ∙ rw same refl in
      rw (there, load_offset, found, k) refl

-- ===== src/Source/File/Restart.antt =====
-- A source that is stopped and started again on the same file.
use blackboxd.Prelude.{
  ℕ, zero, suc, ◌≤◌, ◌≡◌, ◌≢◌, refl, Bool, true, false, [], ◌∷◌, ◌++◌, none, some, ok, length,
  length-append, drop, arith, ==_iff,
}
use blackboxd.Prelude.Int.{pos}
use blackboxd.Bytes.{Bytes}
use blackboxd.Source.File.{
  FileConfig, FileSource, reader_at, refuse_symlink, persisted_offset, start_offset, seek_to,
  open_initial, persist_offset,
}

drop-append : (n : ℕ) (s t : Bytes) → n ≤ length s → drop n (s ++ t) ≡ drop n s ++ t
drop-append zero s t h = refl
drop-append (suc n) [] t h = absurd (omega arith)
drop-append (suc n) (x ∷ s) t h = drop-append n s t (omega arith)

accepts_file : (cfg : FileConfig) → refuse_symlink cfg (some false) ≡ none
unfolding refuse_symlink
accepts_file cfg = ground arith

persisted_offset_again :
    (path : Bytes) (n inode size : ℕ)
    → inode ≢ 0
    → n ≤ size
    → persisted_offset (some (record { path = path; offset = pos n; inode = inode })) inode size
      ≡ pos n
unfolding persisted_offset
persisted_offset_again path n inode size ne le = ground (arith, ==_iff inode 0)

-- A source with an offset store, not reading from the beginning, that has read a file with a
-- nonzero inode up to its offset and persists it: opened again on the same file, which has grown,
-- it has exactly the bytes before it that it had not read and those that were added, at the same
-- offset.
pub restart_resumes :
    (cfg : FileConfig) (s : FileSource) (content more : Bytes) (broken : Bool)
    → cfg.offsets ≡ true
    → cfg.from_beginning ≡ false
    → s.cur_ino ≢ 0
    → s.reader.offset ≤ length content
    → s.reader.unread ≡ drop (s.reader.offset) content
    → open_initial cfg
        (some false)
        (some (record { inode = s.cur_ino; content = content ++ more; broken = broken }))
        (persist_offset cfg s)
      ≡ ok (record {
        cur_ino = s.cur_ino;
        reader = record {
          unread = s.reader.unread ++ more;
          broken = broken;
          offset = s.reader.offset;
        };
      })
unfolding open_initial persist_offset start_offset seek_to reader_at
restart_resumes cfg s content more broken store tail ino le reads = simp (
  open_initial,
  persist_offset,
  start_offset,
  store,
  accepts_file cfg,
  tail,
  persisted_offset_again cfg.path (s.reader.offset) s.cur_ino (length (content ++ more)) ino
      (omega (arith, le, length-append content more)),
  drop-append (s.reader.offset) content more le,
  reads,
)

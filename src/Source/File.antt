-- ===== src/Source/File.antt =====
-- internal/source/file.go: `FileSource`, which tails one file: opening, draining, rotation, and the
-- offset that internal/source/offset.go persists. The file's bytes and what the calls of the file
-- system return are arguments; what the writer of the file appends comes between two calls.
pub mod Settings
pub mod Drain
pub mod Restart
use blackboxd.Prelude.{
  ℕ, zero, suc, ◌+◌, Bool, true, false, not, ◌&&◌, List, [], ◌∷◌, ◌++◌, Option, none, some, Result,
  ok, err, ltb, ◌==◌, if◌then◌else◌, length, take, drop,
}
use blackboxd.Prelude.Int.{ℤ, pos, negsuc, ltb_ℤ}
use blackboxd.Bytes.{Bytes, bytes, insert}
use blackboxd.Entry.{LogEntry, ParseError}
use blackboxd.Source.Reader.{Reader, Line, line, eof, failed, read_line}

-- `FileSourceConfig`, as far as the reading depends on it, with its defaults filled in. `offsets`
-- says that there is a store.
pub record FileConfig : Type 0 where
  pub name : Bytes
  pub path : Bytes
  pub from_beginning : Bool
  pub follow_symlinks : Bool
  pub max_line : ℕ
  pub offsets : Bool

-- The line cap of a config: 64 KiB for one that is not positive.
unfoldable pub max_line_of_config : ℤ → ℕ
max_line_of_config (pos zero) = 65536
max_line_of_config (pos (suc n)) = suc n
max_line_of_config (negsuc n) = 65536

-- `Offset`, the persisted state. A stored `int64` may be negative.
pub record Offset : Type 0 where
  pub path : Bytes
  pub offset : ℤ
  pub inode : ℕ

-- `FileSource`: the inode of the open file, and its reader with the offset.
pub record FileSource : Type 0 where
  pub cur_ino : ℕ
  pub reader : Reader

-- A file that `os.Open` opens: its inode, its bytes, and whether a read behind them fails.
pub record OpenFile : Type 0 where
  pub inode : ℕ
  pub content : Bytes
  pub broken : Bool

pub data SourceError : Type 0 where
  fatal os_error : SourceError

-- A reader on an open file that was sought to an offset.
pub reader_at : ℕ → Bytes → Bool → Reader
reader_at n content broken = record { unread = drop n content; broken = broken; offset = n }

-- The check that the path is no symbolic link, on what `os.Lstat` tells: an error, or whether it is one.
pub refuse_symlink : FileConfig → Option Bool → Option SourceError
refuse_symlink cfg link =
    if cfg.follow_symlinks
    then none
    else elim link [ none ↦ some os_error | some is_link ↦ if is_link then some fatal else none ]

-- The start of a source with a store, on what `Load` returned; `none` is its error.
unfoldable pub persisted_offset : Option Offset → ℕ → ℕ → ℤ
persisted_offset none inode size = pos size
persisted_offset (some off) inode size =
    if not (off.inode == 0) && ((off.inode == inode) && not (ltb_ℤ (pos size) off.offset))
    then off.offset
    else if not (off.inode == 0)
    then pos 0
    else pos size

unfoldable pub start_offset : FileConfig → Option Offset → ℕ → ℕ → ℤ
start_offset cfg loaded inode size =
    if cfg.offsets && not cfg.from_beginning
    then persisted_offset loaded inode size
    else if cfg.from_beginning
    then pos 0
    else pos size

-- `f.Seek` refuses a negative offset, and the rest of `openInitial`.
unfoldable pub seek_to : OpenFile → ℤ → Result SourceError FileSource
seek_to f (pos n) = ok (record { cur_ino = f.inode; reader = reader_at n f.content f.broken })
seek_to f (negsuc n) = err os_error

-- `openInitial`; an open or stat that fails is `none`.
unfoldable pub open_initial :
    FileConfig → Option Bool → Option OpenFile → Option Offset → Result SourceError FileSource
open_initial cfg link opened loaded = elim (refuse_symlink cfg link) [
  | some e ↦ err e
  | none ↦ elim opened [
    | none ↦ err os_error
    | some f ↦ seek_to f (start_offset cfg loaded f.inode (length f.content))
  ]
]

-- What `os.Stat` tells of the path.
pub record Info : Type 0 where
  pub size : ℕ
  pub inode : ℕ

-- The part of `checkRotation` behind `os.Stat`: whether it found a rotation, or its error, and the
-- source. `current` is what the open file holds now, and `seeks` whether it can be sought.
unfoldable pub reopen :
    FileSource → Info → Option OpenFile → OpenFile → Bool → Result SourceError Bool × FileSource
reopen s info opened current seeks =
    if not (info.inode == s.cur_ino)
    then elim opened [
      | none ↦ (err os_error, s)
      | some f ↦ (ok true, record { cur_ino = info.inode; reader = reader_at 0 f.content f.broken })
    ]
    else if ltb info.size s.reader.offset
    then (if seeks
        then (ok true, record s { reader = reader_at 0 current.content current.broken })
        else (err os_error, s))
    else (ok false, s)

-- `checkRotation`; a path that `os.Stat` does not find is no error.
unfoldable pub check_rotation :
    FileConfig
    → FileSource
    → Option Bool
    → Option Info
    → Option OpenFile
    → OpenFile
    → Bool
    → Result SourceError Bool × FileSource
check_rotation cfg s link stat opened current seeks = elim (refuse_symlink cfg link) [
  | some e ↦ (err e, s)
  | none ↦ elim stat [ none ↦ (ok false, s) | some info ↦ reopen s info opened current seeks ]
]

-- What `persistOffset` saves, where there is a store.
unfoldable pub persist_offset : FileConfig → FileSource → Option Offset
persist_offset cfg s =
    if cfg.offsets
    then some (record { path = cfg.path; offset = pos (s.reader.offset); inode = s.cur_ino })
    else none

-- How a `drain` ends: at the file's end, by its context, or on a failed read.
pub data DrainEnd : Type 0 where
  drained cancelled read_failed : DrainEnd

-- The parser of a source, and the two functions of Go's library that clean a message up.
module _ (parser : Bytes → Result ParseError LogEntry) (valid_string : Bytes → Bool)
    (to_valid_utf8 : Bytes → Bytes) where
  -- `SanitizeUTF8`.
  unfoldable pub sanitize_utf8 : LogEntry → LogEntry
  sanitize_utf8 e =
      if valid_string e.message then e else record e { message = to_valid_utf8 (e.message) }

  pub tag_truncated : Bool → LogEntry → LogEntry
  tag_truncated true e = record e { fields = insert (bytes "truncated") (bytes "true") (e.fields) }
  tag_truncated false e = e

  -- `consumeLine`: the entries that it emits, one or none.
  unfoldable pub consume_line : FileConfig → Bytes → List LogEntry
  consume_line cfg raw =
      let truncated = ltb cfg.max_line (length raw) in
      elim (parser (if truncated then take cfg.max_line raw else raw)) [
        | err e ↦ []
        | ok e ↦ tag_truncated truncated (sanitize_utf8 (record e { source = cfg.name })) ∷ []
      ]

  -- `drain`: the entries emitted, how it ended, and the reader. The number says how often `ctx` is
  -- found not done.
  unfoldable pub drain : ℕ → FileConfig → Reader → List LogEntry × DrainEnd × Reader
  drain zero cfg r = ([], cancelled, r)
  drain (suc n) cfg r =
      let (l, r') = read_line cfg.max_line r in
      let (later, end, last) = drain n cfg r' in
      elim l [
        | line raw ↦ (consume_line cfg raw ++ later, end, last)
        | eof ↦ ([], drained, r')
        | failed ↦ ([], read_failed, r')
      ]

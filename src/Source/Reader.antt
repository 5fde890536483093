-- ===== src/Source/Reader.antt =====
-- `bufio.Reader.ReadSlice('\n')` over the bytes that an open file still has, and the line reading of
-- internal/source/file.go on top of it: `readLine` and `discardThroughNewline`.
pub mod Lines
pub mod LongLines
use blackboxd.Prelude.{
  ℕ, zero, suc, ◌+◌, ◌-◌, Bool, true, false, List, [], ◌∷◌, ◌++◌, Option, none, some, ltb, ◌==◌,
  if◌then◌else◌, length, max,
}
use blackboxd.Bytes.{Bytes}

-- How a `ReadSlice` ends: at a newline, with a full buffer, or with the file's error behind its last
-- byte.
pub data SliceEnd : Type 0 where
  newline buffer_full at_end : SliceEnd

-- `ReadSlice('\n')` with room for `n` more bytes in the buffer: the slice, how it ended, and the
-- bytes behind it.
unfoldable pub read_slice : ℕ → Bytes → Bytes × SliceEnd × Bytes
read_slice zero s = ([], buffer_full, s)
read_slice (suc n) [] = ([], at_end, [])
read_slice (suc n) (c ∷ cs) =
    let rest = read_slice n cs in
    if c == b'\n' then (c ∷ [], newline, cs) else (c ∷ rest.0, rest.1, rest.2)

-- An open file behind its reader: the bytes to come, whether a read behind them fails (with io.EOF if
-- it does not), and the `offset` that the source counts.
pub record Reader : Type 0 where
  pub unread : Bytes
  pub broken : Bool
  pub offset : ℕ

-- `bufio.NewReaderSize(f, s.cfg.MaxLineBytes)` has a buffer of 16 bytes at least.
unfoldable pub buffer_size : ℕ → ℕ
buffer_size max_line = max 16 max_line

-- What `readLine` returns.
pub data Line : Type 0 where
  line : Bytes → Line
  eof : Line
  failed : Line

-- `maxDiscardBytes`.
abbrev pub max_discard : ℕ
max_discard = 16777216

-- The loop of `discardThroughNewline`, with `n`: the bytes skipped, how it ended, and the bytes left.
-- `buffer_full` stands for the return at the limit. Each round takes a byte at least, so one round
-- more than there are bytes is enough.
unfoldable pub discard_loop : ℕ → ℕ → ℕ → ℕ → Bytes → ℕ × SliceEnd × Bytes
discard_loop zero buf limit n s = (n, buffer_full, s)
discard_loop (suc fuel) buf limit n s =
    let (slice, end, rest) = read_slice buf s in
    let more = discard_loop fuel buf limit (n + length slice) rest in
    if ltb n limit
    then elim end [
      | newline ↦ (n + length slice, newline, rest)
      | buffer_full ↦ more
      | at_end ↦ (n + length slice, at_end, rest)
    ]
    else (n, buffer_full, s)

unfoldable pub discard_through_newline : ℕ → Bytes → ℕ × SliceEnd × Bytes
discard_through_newline buf s = discard_loop (length s + 1) buf max_discard 0 s

-- The return behind the discard: an error other than io.EOF wins over the line.
unfoldable pub after_discard : Bytes → SliceEnd → Reader → Line × Reader
after_discard slice at_end r = if r.broken then (failed, r) else (line (slice ++ (b'\n' ∷ [])), r)
after_discard slice newline r = (line (slice ++ (b'\n' ∷ [])), r)
after_discard slice buffer_full r = (line (slice ++ (b'\n' ∷ [])), r)

-- `readLine` on the slice that was read.
unfoldable pub line_of_slice : ℕ → Reader → Bytes → SliceEnd → Bytes → Line × Reader
line_of_slice buf r slice newline rest =
    (line slice, record r { unread = rest; offset = r.offset + length slice })
line_of_slice buf r slice buffer_full rest =
    let (drained, end, rest') = discard_through_newline buf rest in
    after_discard slice end
      (record r { unread = rest'; offset = r.offset + length slice + drained })
line_of_slice buf r slice at_end rest =
    if r.broken
    then (failed, record r { unread = rest })
    else if ltb 0 (length slice)
    then (line slice, record r { unread = rest; offset = r.offset + length slice })
    else (eof, record r { unread = rest })

-- `readLine`.
unfoldable pub read_line : ℕ → Reader → Line × Reader
read_line max_line r =
    let (slice, end, rest) = read_slice (buffer_size max_line) r.unread in
    line_of_slice (buffer_size max_line) r slice end rest

-- ===== src/Source/File/Drain.antt =====
-- Draining a file of whole lines.
use blackboxd.Prelude.{
  ℕ, zero, suc, ◌+◌, ◌<◌, ◌≡◌, refl, ap, Bool, false, List, [], ◌∷◌, ◌++◌, Result, length,
  length-append, All, arith,
}
use blackboxd.Bytes.{Bytes}
use blackboxd.Bytes.Laws.{Lacks}
use blackboxd.Entry.{LogEntry, ParseError}
use blackboxd.Source.Reader.{Reader, eof, at_end, buffer_size, read_slice, line_of_slice, read_line}
use blackboxd.Source.Reader.Lines.{read_line_short}
use blackboxd.Source.Reader.LongLines.{buffer_size-pos}
use blackboxd.Source.File.{FileConfig, consume_line, drain, drained}

-- A file of lines, each with its newline.
abbrev pub join_lines : List Bytes → Bytes
join_lines [] = []
join_lines (s ∷ ss) = s ++ (b'\n' ∷ join_lines ss)

-- The lines of a file that are no longer than the buffer.
abbrev pub AreLines : ℕ → List Bytes → Type 0
AreLines max_line = All (λ s. Lacks b'\n' s × (length s < buffer_size max_line))

read_slice-nil : (n : ℕ) → 0 < n → read_slice n [] ≡ ([], at_end, [])
unfolding read_slice
read_slice-nil zero h = absurd (omega arith)
read_slice-nil (suc n) h = refl

read_line-eof :
    (max_line : ℕ) (r : Reader)
    → r.unread ≡ []
    → r.broken ≡ false
    → read_line max_line r ≡ (eof, record r { unread = [] })
unfolding read_line line_of_slice
read_line-eof max_line r e b =
    rw (e, read_slice-nil (buffer_size max_line) (buffer_size-pos max_line), b) refl

module _ (parser : Bytes → Result ParseError LogEntry) (valid_string : Bytes → Bool)
    (to_valid_utf8 : Bytes → Bytes) where
  -- The entries of the lines, in the order of the lines.
  abbrev pub entries_of : FileConfig → List Bytes → List LogEntry
  entries_of cfg [] = []
  entries_of cfg (s ∷ ss) =
      consume_line parser valid_string to_valid_utf8 cfg (s ++ (b'\n' ∷ [])) ++ entries_of cfg ss

  -- On a readable file of whole lines that fit in the buffer, a drain that is not interrupted
  -- before it has read them emits what consumeLine makes of each line, in the order of the lines,
  -- reads the file to its end and moves the offset by the size of the file.
  pub drain_lines :
      (n : ℕ) (cfg : FileConfig) (r : Reader) (ss : List Bytes)
      → r.unread ≡ join_lines ss
      → r.broken ≡ false
      → AreLines cfg.max_line ss
      → length ss < n
      → drain parser valid_string to_valid_utf8 n cfg r ≡ (
        entries_of cfg ss,
        drained,
        record r { unread = []; offset = r.offset + length (join_lines ss) },
      )
  unfolding drain
  drain_lines zero cfg r ss e b h lt = absurd (omega arith)
  drain_lines (suc n) cfg r [] e b h lt =
      let read = read_line-eof cfg.max_line r e b in
      rw (drain, read, read)
        (ap (λ o. ([], drained, record r { unread = []; offset = o })) (omega arith))
  drain_lines (suc n) cfg r (s ∷ ss) e b h lt =
      let next : Reader = record r { unread = join_lines ss; offset = r.offset + (length s + 1) } in
      let read = read_line_short cfg.max_line r s (join_lines ss) e h.0.0 h.0.1 in
      rw (drain, read, read, drain_lines n cfg next ss refl b h.1 (omega arith))
        (ap (λ o. (entries_of cfg (s ∷ ss), drained, record r { unread = []; offset = o }))
          (omega (arith, length-append s (b'\n' ∷ join_lines ss))))

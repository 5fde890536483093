-- ===== src/Source/Reader/Lines.antt =====
-- What `readLine` returns, and how its offset keeps step with the file.
use blackboxd.Prelude.{
  ℕ, zero, suc, ◌+◌, ◌≤◌, ◌<◌, ◌≡◌, ◌≢◌, refl, ap, ◌∙◌, sym, ◌⊎◌, inl, inr, [], ◌∷◌, ◌++◌, ltb,
  ◌==◌, Bool-cases, length, length-append, arith,
}
use blackboxd.Bytes.{Bytes}
use blackboxd.Bytes.Laws.{Lacks}
use blackboxd.Source.Reader.{
  SliceEnd, newline, buffer_full, at_end, read_slice, Reader, buffer_size, line, failed,
  max_discard, discard_loop, discard_through_newline, after_discard, line_of_slice, read_line,
}

-- A slice and what is behind it make up the bytes; it holds at most `n` bytes.
read_slice_splits :
    (n : ℕ) (s : Bytes)
    → let (slice, end, rest) = read_slice n s in (s ≡ slice ++ rest) × (length slice ≤ n)
unfolding read_slice
read_slice_splits zero s = (refl, omega arith)
read_slice_splits (suc n) [] = (refl, omega arith)
read_slice_splits (suc n) (c ∷ cs) =
    let (splits, short) = read_slice_splits n cs in
    elim (Bool-cases (c == b'\n')) [
      | inl end ↦ rw end (refl, omega arith)
      | inr more ↦ rw more (ap (◌∷◌ c) splits, omega arith)
    ]

-- A line that fits in the buffer, newline included, is found as it stands.
pub read_slice-newline :
    (n : ℕ) (s rest : Bytes)
    → Lacks b'\n' s
    → length s < n
    → read_slice n (s ++ (b'\n' ∷ rest)) ≡ (s ++ (b'\n' ∷ []), newline, rest)
unfolding read_slice
read_slice-newline zero s rest h lt = absurd (omega arith)
read_slice-newline (suc n) [] rest h lt = refl
read_slice-newline (suc n) (c ∷ s) rest h lt =
    rw (h.0, read_slice-newline n s rest h.1 (omega arith))

-- A full buffer without a newline.
pub read_slice-full :
    (s rest : Bytes) → Lacks b'\n' s → read_slice (length s) (s ++ rest) ≡ (s, buffer_full, rest)
unfolding read_slice
read_slice-full [] rest h = refl
read_slice-full (c ∷ s) rest h = rw (h.0, read_slice-full s rest h.1)

SliceEnd-cases : (e : SliceEnd) → (e ≡ newline) ⊎ (e ≡ buffer_full) ⊎ (e ≡ at_end)
SliceEnd-cases newline = inl refl
SliceEnd-cases buffer_full = inr (inl refl)
SliceEnd-cases at_end = inr (inr refl)

read_slice-length :
    (n : ℕ) (s : Bytes)
    → let (slice, end, rest) = read_slice n s in length slice + length rest ≡ length s
read_slice-length n s =
    let (splits, short) = read_slice_splits n s in
    sym (length-append (read_slice n s).0 (read_slice n s).2) ∙ ap length (sym splits)

discard_loop_counts :
    (fuel buf limit n : ℕ) (s : Bytes)
    → let (n', end, rest) = discard_loop fuel buf limit n s in n' + length rest ≡ n + length s
unfolding discard_loop
discard_loop_counts zero buf limit n s = refl
discard_loop_counts (suc fuel) buf limit n s =
    let sum = read_slice-length buf s in
    elim (Bool-cases (ltb n limit)) [
      | inr over ↦ rw over refl
      | inl under ↦ rw under (elim (SliceEnd-cases (read_slice buf s).1) [
        | inl e ↦ rw e (omega (arith, sum))
        | inr (inl e) ↦ rw e (
            omega (
              arith,
              sum,
              discard_loop_counts fuel buf limit (n + length (read_slice buf s).0)
                  (read_slice buf s).2,
            ))
        | inr (inr e) ↦ rw e (omega (arith, sum))
      ])
    ]

after_discard_reader :
    (slice : Bytes) (end : SliceEnd) (r : Reader) → (after_discard slice end r).1 ≡ r
unfolding after_discard
after_discard_reader slice at_end r = elim (Bool-cases r.broken) [
  | inl b ↦ rw b refl
  | inr b ↦ rw b refl
]
after_discard_reader slice _ r = refl

line_of_slice_offset :
    (buf : ℕ) (r : Reader) (slice : Bytes) (end : SliceEnd) (rest : Bytes)
    → length slice + length rest ≡ length r.unread
    → let (l, r') = line_of_slice buf r slice end rest in
      l ≢ failed → r'.offset + length r'.unread ≡ r.offset + length r.unread
unfolding line_of_slice discard_through_newline
line_of_slice_offset buf r slice newline rest h ok = omega arith
line_of_slice_offset buf r slice buffer_full rest h ok =
    rw (after_discard_reader slice _ _)
      (omega (arith, discard_loop_counts (length rest + 1) buf max_discard 0 rest))
line_of_slice_offset buf r slice at_end rest h ok = elim (Bool-cases r.broken) [
  | inl b ↦ absurd (ok (rw b refl))
  | inr b ↦ simp b (ground arith)
]

-- Whatever readLine returns but a failure, its offset has moved by exactly the bytes that it took
-- from the file.
pub read_line_offset :
    (max_line : ℕ) (r : Reader)
    → let (l, r') = read_line max_line r in
      l ≢ failed → r'.offset + length r'.unread ≡ r.offset + length r.unread
unfolding read_line
read_line_offset max_line r ok =
    line_of_slice_offset (buffer_size max_line) r _ _ _
      (read_slice-length (buffer_size max_line) r.unread) ok

-- A line that fits in the buffer with its newline is returned as it stands, and what is behind it
-- is left to be read.
pub read_line_short :
    (max_line : ℕ) (r : Reader) (s rest : Bytes)
    → r.unread ≡ s ++ (b'\n' ∷ rest)
    → Lacks b'\n' s
    → length s < buffer_size max_line
    → read_line max_line r
      ≡ (line (s ++ (b'\n' ∷ [])), record r { unread = rest; offset = r.offset + (length s + 1) })
unfolding read_line line_of_slice
read_line_short max_line r s rest e h lt =
    rw (e, read_slice-newline (buffer_size max_line) s rest h lt)
      (ap (λ (n : ℕ). (line (s ++ (b'\n' ∷ [])), record r { unread = rest; offset = r.offset + n }))
        (length-append s (b'\n' ∷ [])))

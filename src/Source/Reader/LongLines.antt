-- ===== src/Source/Reader/LongLines.antt =====
-- Lines that exceed the buffer, and the discard of their rest.
use blackboxd.Prelude.{
  ℕ, zero, suc, ◌+◌, ◌≤◌, ◌<◌, ◌≡◌, refl, ap, ap₂, ◌∙◌, sym, subst, inl, inr, true, List, [], ◌∷◌,
  ◌++◌, append_assoc, append-nil, ltb, Bool-cases, length, length-append, length-take, length-drop,
  take, drop, take-append-drop, arith,
}
use native.Mathlib.Decide.{dec_lt}
use blackboxd.Bytes.{Bytes}
use blackboxd.Bytes.Laws.{Lacks}
use blackboxd.Source.Reader.{
  SliceEnd, newline, buffer_full, read_slice, Reader, buffer_size, line, max_discard, discard_loop,
  discard_through_newline, after_discard, line_of_slice, read_line,
}
use blackboxd.Source.Reader.Lines.{read_slice-newline, read_slice-full}

pub Lacks-take : (c n : ℕ) (s : Bytes) → Lacks c s → Lacks c (take n s)
Lacks-take c zero s h = tt
Lacks-take c (suc n) [] h = tt
Lacks-take c (suc n) (x ∷ s) h = (h.0, Lacks-take c n s h.1)

pub Lacks-drop : (c n : ℕ) (s : Bytes) → Lacks c s → Lacks c (drop n s)
Lacks-drop c zero s h = h
Lacks-drop c (suc n) [] h = tt
Lacks-drop c (suc n) (x ∷ s) h = Lacks-drop c n s h.1

-- One full slice off a text without a newline.
full_slice :
    (buf : ℕ) (t rest : Bytes)
    → Lacks b'\n' t
    → buf ≤ length t
    → read_slice buf (t ++ rest) ≡ (take buf t, buffer_full, drop buf t ++ rest)
full_slice buf t rest h le =
    let size : length (take buf t) ≡ buf = omega (arith, length-take buf t) in
    let text : take buf t ++ (drop buf t ++ rest) ≡ t ++ rest =
      sym (append_assoc (take buf t) (drop buf t) rest)
      ∙ ap (λ l. l ++ rest) (take-append-drop buf t) in
    subst (λ l. read_slice buf l ≡ (take buf t, buffer_full, drop buf t ++ rest)) text
      (subst
        (λ (k : ℕ).
          read_slice k (take buf t ++ (drop buf t ++ rest))
          ≡ (take buf t, buffer_full, drop buf t ++ rest))
        size (read_slice-full (take buf t) (drop buf t ++ rest) (Lacks-take b'\n' buf t h)))

-- The discard stops behind the newline, if that comes before the limit.
discard_loop-newline :
    (fuel buf limit n : ℕ) (t rest : Bytes)
    → Lacks b'\n' t
    → 0 < buf
    → length t < fuel
    → n + length t < limit
    → discard_loop fuel buf limit n (t ++ (b'\n' ∷ rest)) ≡ (n + length t + 1, newline, rest)
unfolding discard_loop
discard_loop-newline zero buf limit n t rest h pos fu lt = absurd (omega arith)
discard_loop-newline (suc fuel) buf limit n t rest h pos fu lt =
    let under : ltb n limit ≡ true = ground arith in
    elim (dec_lt (length t) buf) [
      | yes short ↦
          let found = read_slice-newline buf t rest h short in
          rw (under, found, found)
            (ap (λ (k : ℕ). (k, newline, rest)) (omega (arith, length-append t (b'\n' ∷ []))))
      | no long ↦
          let again =
            discard_loop-newline fuel buf limit (n + length (take buf t)) (drop buf t) rest
              (Lacks-drop b'\n' buf t h) pos (omega (arith, length-drop buf t))
              (omega (arith, length-drop buf t, length-take buf t)) in
          let full = full_slice buf t (b'\n' ∷ rest) h (omega arith) in
          rw (under, full, full)
            (again
              ∙ ap (λ (k : ℕ). (k, newline, rest))
                  (omega (arith, length-drop buf t, length-take buf t)))
    ]

-- Where no newline comes, the discard stops at the limit, at most a buffer behind it.
record Stopped (buf limit n : ℕ) (t : Bytes) (out : ℕ × SliceEnd × Bytes) : Type 0 where
  skipped : ℕ
  out_is : out ≡ (n + skipped, buffer_full, drop skipped t)
  at_limit : limit ≤ n + skipped
  not_past : n + skipped < limit + buf

drop-nil {ℓ} : {A : Type ℓ} (k : ℕ) → drop {A = A} k [] ≡ []
drop-nil zero = refl
drop-nil (suc k) = refl

drop-drop {ℓ} : {A : Type ℓ} (a b : ℕ) (xs : List A) → drop a (drop b xs) ≡ drop (b + a) xs
drop-drop a zero xs = ap (λ (k : ℕ). drop k xs) (omega arith)
drop-drop a (suc b) [] = drop-nil a ∙ sym (drop-nil (suc b + a))
drop-drop a (suc b) (x ∷ xs) =
    let step : suc b + a ≡ suc (b + a) = omega arith in rw step (drop-drop a b xs)

full_slice-all :
    (buf : ℕ) (t : Bytes)
    → Lacks b'\n' t
    → buf ≤ length t
    → read_slice buf t ≡ (take buf t, buffer_full, drop buf t)
full_slice-all buf t h le =
    subst (λ l. read_slice buf l ≡ (take buf t, buffer_full, drop buf t)) (append-nil t)
      (full_slice buf t [] h le ∙ ap (λ l. (take buf t, buffer_full, l)) (append-nil (drop buf t)))

discard_loop-Stopped :
    (fuel buf limit n : ℕ) (t : Bytes)
    → Lacks b'\n' t
    → 0 < buf
    → length t < fuel
    → n < limit + buf
    → limit + buf ≤ n + length t
    → Stopped buf limit n t (discard_loop fuel buf limit n t)
unfolding discard_loop
discard_loop-Stopped zero buf limit n t h pos fu room long = absurd (omega arith)
discard_loop-Stopped (suc fuel) buf limit n t h pos fu room long = elim (Bool-cases (ltb n limit)) [
  | inr over ↦ rw over (record {
    skipped = 0;
    out_is = ap (λ (k : ℕ). (k, buffer_full, t)) (omega arith);
    at_limit = ground arith;
    not_past = omega arith;
  })
  | inl under ↦
      let lt : n < limit = ground arith in
      let full = full_slice-all buf t h (omega arith) in
      let size : length (take buf t) ≡ buf = omega (arith, length-take buf t) in
      let rest =
        discard_loop-Stopped fuel buf limit (n + length (take buf t)) (drop buf t)
          (Lacks-drop b'\n' buf t h) pos (omega (arith, length-drop buf t)) (omega (arith, size))
          (omega (arith, size, length-drop buf t)) in
      rw (under, full, full)
        (record {
          skipped = buf + rest.skipped;
          out_is =
              rest.out_is
              ∙ ap₂ (λ (k : ℕ) l. (k, buffer_full, l)) (omega (arith, size))
                  (drop-drop rest.skipped buf t);
          at_limit = omega (arith, size, rest.at_limit);
          not_past = omega (arith, size, rest.not_past);
        })
]

pub buffer_size-pos : (max_line : ℕ) → 0 < buffer_size max_line
unfolding buffer_size
buffer_size-pos max_line = omega arith

-- A line that does not fit in the buffer, and whose newline comes within the discard limit, is
-- returned cut to the size of the buffer with a newline, and the next line is left to be read.
pub read_line_long :
    (max_line : ℕ) (r : Reader) (first t rest : Bytes)
    → r.unread ≡ first ++ (t ++ (b'\n' ∷ rest))
    → Lacks b'\n' first
    → Lacks b'\n' t
    → length first ≡ buffer_size max_line
    → length t < max_discard
    → read_line max_line r ≡ (
      line (first ++ (b'\n' ∷ [])),
      record r { unread = rest; offset = r.offset + length first + (0 + length t + 1) },
    )
unfolding read_line line_of_slice discard_through_newline after_discard buffer_size
read_line_long max_line r first t rest e hf ht size small =
    let tail = t ++ (b'\n' ∷ rest) in
    let full : read_slice (buffer_size max_line) (first ++ tail) ≡ (first, buffer_full, tail) =
      subst (λ (k : ℕ). read_slice k (first ++ tail) ≡ (first, buffer_full, tail)) size
        (read_slice-full first tail hf) in
    let skip =
      discard_loop-newline (length tail + 1) (buffer_size max_line) max_discard 0 t rest ht
        (buffer_size-pos max_line) (omega (arith, length-append t (b'\n' ∷ rest))) (omega arith) in
    rw (e, full, skip) refl

-- If no newline comes within the discard limit, readLine returns the first buffer of the line with
-- a newline and stops inside the same line, less than the limit and one buffer further on.
pub read_line_overlong :
    (max_line : ℕ) (r : Reader) (first t : Bytes)
    → r.unread ≡ first ++ t
    → Lacks b'\n' first
    → Lacks b'\n' t
    → length first ≡ buffer_size max_line
    → max_discard + buffer_size max_line ≤ length t
    → let (l, r') = read_line max_line r in
      (l ≡ line (first ++ (b'\n' ∷ [])))
      × ((k : ℕ) × (r'.unread ≡ drop k t) × (k < max_discard + buffer_size max_line))
unfolding read_line line_of_slice discard_through_newline after_discard
read_line_overlong max_line r first t e hf ht size long =
    let full : read_slice (buffer_size max_line) (first ++ t) ≡ (first, buffer_full, t) =
      subst (λ (k : ℕ). read_slice k (first ++ t) ≡ (first, buffer_full, t)) size
        (read_slice-full first t hf) in
    let stop =
      discard_loop-Stopped (length t + 1) (buffer_size max_line) max_discard 0 t ht
        (buffer_size-pos max_line) (omega arith) (omega arith) (omega arith) in
    rw (e, full, stop.out_is) (refl, (stop.skipped, refl, omega (arith, stop.not_past)))

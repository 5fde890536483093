-- ===== src/Transport/Spool/Numbering.antt =====
-- A spool file's name tells the number of its batch, whatever the clock said.
use blackboxd.Prelude.{
  ℕ, zero, suc, ◌+◌, ◌-◌, ◌*◌, ◌/◌, ◌%◌, ◌^◌, ◌<◌, ◌≡◌, refl, ap, ap₂, ◌∙◌, sym, subst, inl, inr,
  [], ◌∷◌, ◌++◌, append_assoc, ltb, Bool-cases, arith,
}
use native.Mathlib.Nat.{add-zero}
use blackboxd.Bytes.{Bytes, bytes}
use blackboxd.Bytes.Laws.{Lacks, Lacks-append}
use blackboxd.Bytes.Numbers.{value, value_from}
use blackboxd.Transport.Spool.Names.{pad_digits, width, padded, spool_name}

value_from-snoc :
    (ds : Bytes) (c acc : ℕ) → value_from acc (ds ++ (c ∷ [])) ≡ value_from acc ds * 10 + (c - b'0')
value_from-snoc [] c acc = refl
value_from-snoc (d ∷ ds) c acc = value_from-snoc ds c (acc * 10 + (d - b'0'))

value-pad_digits : (w n : ℕ) → n < 10 ^ w → value (pad_digits w n) ≡ n
unfolding pad_digits
value-pad_digits zero n h = omega arith
value-pad_digits (suc w) n h =
    let tenth : 10 ^ suc w ≡ 10 ^ w * 10 = omega arith in
    let rest = value-pad_digits w (n / 10) (omega (arith, tenth, h)) in
    value_from-snoc (pad_digits w (n / 10)) (b'0' + n % 10) 0 ∙ omega (arith, rest)

fits-width : (fuel w n : ℕ) → n < 10 ^ (w + fuel) → n < 10 ^ width fuel w n
unfolding width
fits-width zero w n h = rw (add-zero) at h
fits-width (suc fuel) w n h = elim (Bool-cases (ltb n (10 ^ w))) [
  | inl fits ↦ rw fits (ground arith)
  | inr big ↦ rw big (fits-width fuel (w + 1) n (subst (λ (k : ℕ). n < 10 ^ k) (omega arith) h))
]

value-padded : (w n : ℕ) → n < 10 ^ (w + 20) → value (padded w n) ≡ n
unfolding padded
value-padded w n h = value-pad_digits (width 20 w n) n (fits-width 20 w n h)

pad_digits-Lacks : (c w n : ℕ) → c < b'0' → Lacks c (pad_digits w n)
unfolding pad_digits
pad_digits-Lacks c zero n h = tt
pad_digits-Lacks c (suc w) n h =
    Lacks-append c (pad_digits w (n / 10)) _ (pad_digits-Lacks c w (n / 10) h) (ground arith, tt)

padded-Lacks : (c w n : ℕ) → c < b'0' → Lacks c (padded w n)
unfolding padded
padded-Lacks c w n h = pad_digits-Lacks c (width 20 w n) n h

-- Around the first occurrence of a byte there is one way to cut a text.
cut_unique :
    (c : ℕ) (s t : Bytes) {x y : Bytes}
    → Lacks c s
    → Lacks c t
    → s ++ (c ∷ x) ≡ t ++ (c ∷ y)
    → (s ≡ t) × (x ≡ y)
cut_unique c [] [] h k e = (refl, cc)
cut_unique c [] (b ∷ t) h k e = absurd (ground arith)
cut_unique c (a ∷ s) [] h k e = absurd (ground arith)
cut_unique c (a ∷ s) (b ∷ t) {x} {y} h k e =
    let tails : s ++ (c ∷ x) ≡ t ++ (c ∷ y) = cc in
    let heads : a ≡ b = cc in
    let (st, xy) = cut_unique c s t h.1 k.1 tails in (ap₂ ◌∷◌ heads st, xy)

-- Names of batches with different numbers differ, also with something behind them.
pub spool_name_number :
    (now now' i j : ℕ) (x y : Bytes)
    → i < 2 ^ 64
    → j < 2 ^ 64
    → spool_name now i ++ x ≡ spool_name now' j ++ y
    → i ≡ j
unfolding spool_name
spool_name_number now now' i j x y hi hj e =
    let dash =
      cut_unique b'-' (padded 20 now) (padded 20 now') {x = (padded 10 i ++ bytes ".jsonl.gz") ++ x}
        {y = (padded 10 j ++ bytes ".jsonl.gz") ++ y} (padded-Lacks b'-' 20 now (omega arith))
        (padded-Lacks b'-' 20 now' (omega arith))
        (sym (append_assoc (padded 20 now) _ x) ∙ e ∙ append_assoc (padded 20 now') _ y) in
    let dot =
      cut_unique b'.' (padded 10 i) (padded 10 j) {x = bytes "jsonl.gz" ++ x}
        {y = bytes "jsonl.gz" ++ y} (padded-Lacks b'.' 10 i (omega arith))
        (padded-Lacks b'.' 10 j (omega arith))
        (sym (append_assoc (padded 10 i) _ x) ∙ dash.1 ∙ append_assoc (padded 10 j) _ y) in
    sym (value-padded 10 i (omega arith)) ∙ ap value dot.0 ∙ value-padded 10 j (omega arith)

-- Names of batches with different times differ, also with something behind them.
pub spool_name_time :
    (now now' i j : ℕ) (x y : Bytes)
    → now < 2 ^ 64
    → now' < 2 ^ 64
    → spool_name now i ++ x ≡ spool_name now' j ++ y
    → now ≡ now'
unfolding spool_name
spool_name_time now now' i j x y h h' e =
    let dash =
      cut_unique b'-' (padded 20 now) (padded 20 now') {x = (padded 10 i ++ bytes ".jsonl.gz") ++ x}
        {y = (padded 10 j ++ bytes ".jsonl.gz") ++ y} (padded-Lacks b'-' 20 now (omega arith))
        (padded-Lacks b'-' 20 now' (omega arith))
        (sym (append_assoc (padded 20 now) _ x) ∙ e ∙ append_assoc (padded 20 now') _ y) in
    sym (value-padded 20 now (omega arith)) ∙ ap value dash.0 ∙ value-padded 20 now' (omega arith)

-- ===== src/Bytes/Numbers.antt =====
-- Decimal numbers: the value of a run of digits, and what `strconv.Atoi` makes of one.
use blackboxd.Prelude.{
  ℕ, ◌+◌, ◌-◌, ◌*◌, ◌^◌, ◌≤◌, ◌<◌, ◌≡◌, refl, true, [], ◌∷◌, some, arith, length, All,
}
use blackboxd.Prelude.Int.{pos}
use blackboxd.Bytes.{Bytes, is_digit, digits_from, atoi}

-- The decimal value of digits behind the value `acc`.
abbrev pub value_from : ℕ → Bytes → ℕ
value_from acc [] = acc
value_from acc (c ∷ cs) = value_from (acc * 10 + (c - b'0')) cs

abbrev pub value : Bytes → ℕ
value = value_from 0

abbrev pub Digits : Bytes → Type 0
Digits = All (λ c. is_digit c ≡ true)

digits_from-Digits :
    (ds : Bytes) (acc : ℕ) → Digits ds → digits_from acc ds ≡ some (value_from acc ds)
unfolding digits_from
digits_from-Digits [] acc h = refl
digits_from-Digits (c ∷ cs) acc h =
    ground (arith, digits_from-Digits cs (acc * 10 + (c - b'0')) h.1)

-- A run of digits is read as its value, if that fits.
pub atoi-Digits :
    (ds : Bytes) → Digits ds → 1 ≤ length ds → value ds < 2 ^ 63 → atoi ds ≡ some (pos (value ds))
unfolding atoi
atoi-Digits [] h one v = absurd (omega arith)
atoi-Digits (c ∷ cs) h one v = ground (arith, digits_from-Digits (c ∷ cs) 0 h)

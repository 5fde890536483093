-- ===== src/Parser/Rfc5424/Splits.antt =====
-- What `readStructuredData` cuts off.
use blackboxd.Prelude.{
  ℕ, ◌≡◌, ap, sym, inl, inr, [], ◌∷◌, ◌++◌, none, some, ok, ◌==◌, Option, Bool-cases,
  take-append-drop, ==_iff, Result, arith,
}
use blackboxd.Bytes.{Bytes}
use blackboxd.Entry.{ParseError}
use blackboxd.Parser.Rfc5424.StructuredData.{cut_at, read_structured_data}

-- The two slices of a return without an error.
returned_as : Bytes → Bytes → Result ParseError (Bytes × Bytes)
returned_as rest sd = ok (rest, sd)

returned : {a b rest sd : Bytes} → returned_as a b ≡ returned_as rest sd → (a ≡ rest) × (b ≡ sd)
unfolding returned_as
returned h = (cc, cc)

cut_at_splits :
    (s : Bytes) (end : Option ℕ) {rest sd : Bytes} → cut_at s end ≡ ok (rest, sd) → sd ++ rest ≡ s
unfolding cut_at returned_as
cut_at_splits s none h = absurd (cc)
cut_at_splits s (some i) h = let (r, d) = returned h in rw⁻¹ (r, d) (take-append-drop i s)

-- When readStructuredData succeeds, the structured data that it returns followed by the rest that
-- it returns is the text that it was given.
pub read_structured_data_splits :
    (s : Bytes) {rest sd : Bytes} → read_structured_data s ≡ ok (rest, sd) → sd ++ rest ≡ s
unfolding read_structured_data returned_as
read_structured_data_splits [] h = absurd (cc)
read_structured_data_splits (c ∷ s) {rest} {sd} h = elim (Bool-cases (c == b'-')) [
  | inl dash ↦
      let (r, d) = returned (rw dash at h) in
      rw⁻¹ (r, d) (ap (λ x. x ∷ s) (sym ((==_iff c b'-').0 dash)))
  | inr other ↦ elim (Bool-cases (c == b'[')) [
    | inl opens ↦ cut_at_splits (c ∷ s) _ (rw (other, opens) at h)
    | inr none_open ↦ absurd (ground arith)
  ]
]

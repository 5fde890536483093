-- ===== src/Pipeline/Queue/Caps.antt =====
-- What is left when a queue has made room: the longest end of it beside which the entry fits.
use blackboxd.Prelude.{
  ℕ, zero, suc, ◌+◌, ◌≤◌, ◌<◌, ◌≡◌, refl, inl, inr, true, false, List, [], ◌∷◌, ◌++◌, arith,
  Bool-cases, length, drop,
}
use blackboxd.Entry.{LogEntry}
use blackboxd.Pipeline.Ring.{approx_bytes}
use blackboxd.Pipeline.Queue.{total, too_many, excess}

pub total-concat :
    (es : List LogEntry) (e : LogEntry) → total (es ++ (e ∷ [])) ≡ total es + approx_bytes e
total-concat [] e = omega arith
total-concat (x ∷ es) e = omega (arith, total-concat es e)

module _ (max_entries max_bytes cost : ℕ) where
  -- The entry fits beside what is kept.
  pub drop-excess_fits :
      (es : List LogEntry)
      → 0 < max_entries
      → too_many max_entries max_bytes cost (drop (excess max_entries max_bytes cost es) es) ≡ false
  unfolding excess
  drop-excess_fits [] h = ground arith
  drop-excess_fits (e ∷ es) h = elim (Bool-cases (too_many max_entries max_bytes cost (e ∷ es))) [
    | inl full ↦ rw full (drop-excess_fits es h)
    | inr fits ↦ rw fits fits
  ]

  -- It does not fit beside any longer end of the queue.
  pub drop-excess_least :
      (es : List LogEntry) (k : ℕ)
      → k < excess max_entries max_bytes cost es
      → too_many max_entries max_bytes cost (drop k es) ≡ true
  unfolding excess
  drop-excess_least [] k h = absurd (omega arith)
  drop-excess_least (e ∷ es) zero h = ground arith
  drop-excess_least (e ∷ es) (suc k) h = ground (arith, drop-excess_least es k)

  pub excess-full :
      (e : LogEntry) (es : List LogEntry)
      → too_many max_entries max_bytes cost (e ∷ es) ≡ true
      → excess max_entries max_bytes cost (e ∷ es) ≡ suc (excess max_entries max_bytes cost es)
  unfolding excess
  excess-full e es h = rw h

  pub excess-fits :
      (es : List LogEntry)
      → too_many max_entries max_bytes cost es ≡ false
      → excess max_entries max_bytes cost es ≡ 0
  unfolding excess
  excess-fits [] h = refl
  excess-fits (e ∷ es) h = rw h

  pub excess-le : (es : List LogEntry) → excess max_entries max_bytes cost es ≤ length es
  unfolding excess
  excess-le [] = omega arith
  excess-le (e ∷ es) = ground (arith, excess-le es)

-- ===== src/Oneshot/Dump/Bounds.antt =====
-- The bounds that the flags of a dump put on the times of its entries.
use blackboxd.Prelude.{
  ◌≡◌, ◌≢◌, refl, ap, ◌∙◌, inl, inr, true, false, [], none, some, ok, ok_unique, ok_or_err,
  Result-cases, Bool-cases, arith,
}
use blackboxd.Prelude.Int.{ℤ, pos, negsuc, ◌≤ℤ◌, ◌+ℤ◌, neg_ℤ, eqb_ℤ}
use blackboxd.Bytes.Laws.{equal-nil}
use blackboxd.Entry.{Time, LogEntry, zero_time}
use blackboxd.Oneshot.Merge.{Filter, passes}
use blackboxd.Oneshot.Sources.Filtered.{Passes}
use blackboxd.Oneshot.Dump.{Clock, DumpFlags, since_bound, until_bound, build_oneshot_filter}

-- The lower bound is so long before now, or a time of RFC 3339; the upper bound is such a time. The
-- zero time is no bound.
pub record InBounds (clock : Clock) (flags : DumpFlags) (e : LogEntry) : Type 0 where
  pub not_older :
      (d : ℤ)
      → flags.since ≢ []
      → clock.parse_duration flags.since ≡ some d
      → clock.now +ℤ neg_ℤ d ≢ pos 0
      → clock.now +ℤ neg_ℤ d ≤ℤ e.timestamp
  pub not_before :
      (t : Time)
      → flags.since ≢ []
      → clock.parse_duration flags.since ≡ none
      → clock.parse_rfc3339 flags.since ≡ some t
      → t ≢ pos 0
      → t ≤ℤ e.timestamp
  pub not_after :
      (t : Time)
      → flags.until ≢ []
      → clock.parse_rfc3339 flags.until ≡ some t
      → t ≢ pos 0
      → e.timestamp ≤ℤ t

eqb_zero : (t : Time) → t ≢ pos 0 → eqb_ℤ t zero_time ≡ false
eqb_zero (pos n) h = elim (Bool-cases (eqb_ℤ (pos n) zero_time)) [
  | inl e ↦ absurd (h (ap pos (ground arith)))
  | inr ne ↦ ne
]
eqb_zero (negsuc n) h = ground arith

passes_since : (f : Filter) (ts : Time) → passes f ts ≡ true → f.since ≢ pos 0 → f.since ≤ℤ ts
unfolding passes
passes_since f ts h ne = let known = eqb_zero f.since ne in ground (arith, known)

passes_until : (f : Filter) (ts : Time) → passes f ts ≡ true → f.until ≢ pos 0 → ts ≤ℤ f.until
unfolding passes
passes_until f ts h ne = let known = eqb_zero f.until ne in ground (arith, known)

-- The two bounds that make a filter.
filter_bounds :
    (clock : Clock) (flags : DumpFlags) (f : Filter)
    → build_oneshot_filter clock flags.since flags.until ≡ ok f
    → (since_bound clock flags.since ≡ ok f.since) × (until_bound clock flags.until ≡ ok f.until)
unfolding build_oneshot_filter
filter_bounds clock flags f h = elim (Result-cases (since_bound clock flags.since)) [
  | inl (s, es) ↦ elim (Result-cases (until_bound clock flags.until)) [
    | inl (u, eu) ↦
        let made : record { since = s; until = u } ≡ f =
          ok_unique (rw (es, build_oneshot_filter, eu) refl) h in
        (es ∙ ap (λ (g : Filter). ok g.since) made, eu ∙ ap (λ (g : Filter). ok g.until) made)
    | inr (c, eu) ↦ absurd (ok_or_err {e = c} (rw (es, build_oneshot_filter, eu) refl) h)
  ]
  | inr (c, es) ↦ absurd (ok_or_err {e = c} (rw es refl) h)
]

pub Passes-InBounds :
    (clock : Clock) (flags : DumpFlags) (f : Filter)
    → build_oneshot_filter clock flags.since flags.until ≡ ok f
    → (e : LogEntry) → Passes f e
    → InBounds clock flags e
unfolding since_bound until_bound
Passes-InBounds clock flags f h e p =
    let (s, u) = filter_bounds clock flags f h in
    record {
      not_older = λ d some' read ne.
          let same : clock.now +ℤ neg_ℤ d ≡ f.since =
            ok_unique (rw (equal-nil flags.since some', read, since_bound) refl) s in
          rw same (passes_since f e.timestamp p (rw same at ne));
      not_before = λ t some' other read ne.
          let same : t ≡ f.since =
            ok_unique (rw (equal-nil flags.since some', other, since_bound, read) refl) s in
          rw same (passes_since f e.timestamp p (rw same at ne));
      not_after = λ t some' read ne.
          let same : t ≡ f.until =
            ok_unique (rw (equal-nil flags.until some', read, until_bound) refl) u in
          rw same (passes_until f e.timestamp p (rw same at ne));
    }

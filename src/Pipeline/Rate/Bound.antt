-- ===== src/Pipeline/Rate/Bound.antt =====
-- What the calls of `Allow` let through over time, for one source among others.
use blackboxd.Prelude.{
  ℕ, ◌+◌, ◌*◌, ◌≤◌, ◌≡◌, ◌≢◌, refl, ap, ◌∙◌, ◌⊎◌, inl, inr, Bool, true, false, List, [], ◌∷◌, none,
  some, ltb, leb, min, length, if◌then◌else◌, Bool-cases, arith, All,
}
use blackboxd.Prelude.Int.{◌≤ℤ◌}
use blackboxd.Bytes.{Bytes, equal}
use blackboxd.Bytes.Laws.{equal_iff}
use blackboxd.Entry.{Time}
use blackboxd.Pipeline.Rate.{
  Float64, token, Bucket, RateLimiter, find_bucket, put_bucket, elapsed, refill, take_token,
  bucket_of, allow,
}

find_bucket-put_bucket :
    (k j : Bytes) (b : Bucket) (m : List (Bytes × Bucket))
    → find_bucket j (put_bucket k b m) ≡ (if equal k j then some b else find_bucket j m)
unfolding find_bucket put_bucket
find_bucket-put_bucket k j b [] = refl
find_bucket-put_bucket k j b ((i, c) ∷ m) =
    ground (arith, equal_iff k j, equal_iff i k, equal_iff i j, find_bucket-put_bucket k j b m)

-- What rounding costs: a sum that the capacity bounds is at most `slack` units above the true one. For
-- `float64` the few roundings of a sum below the capacity are each within 2^-53 of it.
abbrev pub Rounds : Float64 → ℕ → ℕ → ℕ → Type 0
Rounds fl rate burst slack =
    (tokens ns : ℕ)
    → tokens ≤ burst * token fl
    → min (fl.topped_up tokens ns rate) (burst * token fl) ≤ tokens + ns * (rate * fl.grain) + slack

add-mul : (a b c : ℕ) → (a + b) * c ≡ a * c + b * c
add-mul a b c = omega arith

bounded-le : (t now t' T : Time) → (t' ≡ now) ⊎ (t' ≡ t) → t ≤ℤ T → now ≤ℤ T → t' ≤ℤ T
bounded-le t now t' T (inl e) h k = rw e k
bounded-le t now t' T (inr e) h k = rw e h

-- The arithmetic of one step: what the time up to `t'` brought and what the rest brings.
telescope :
    (t t' T : Time) (gain spent kept had later slack slacks : ℕ)
    → t ≤ℤ t'
    → t' ≤ℤ T
    → spent + kept ≤ had + elapsed t t' * gain + slack
    → later ≤ kept + elapsed t' T * gain + slacks
    → spent + later ≤ had + elapsed t T * gain + (slack + slacks)
telescope t t' T gain spent kept had later slack slacks h k paid rest =
    let sum : elapsed t t' + elapsed t' T ≡ elapsed t T = omega arith in
    omega (arith, ap (λ (n : ℕ). n * gain) sum)

elapsed_mono : (t now T : Time) (gain : ℕ) → t ≤ℤ now → elapsed now T * gain ≤ elapsed t T * gain
elapsed_mono t now T gain h = let less : elapsed now T ≤ elapsed t T = omega arith in grind arith

-- The calls from `t` to `T`, and those with no call after `T`.
abbrev pub Between : Time → Time → List (Bytes × Time) → Type 0
Between t T = All (λ call. (t ≤ℤ call.1) × (call.1 ≤ℤ T))

abbrev Until : Time → List (Bytes × Time) → Type 0
Until T = All (λ call. call.1 ≤ℤ T)

Between-Until : (t T : Time) (calls : List (Bytes × Time)) → Between t T calls → Until T calls
Between-Until t T [] h = tt
Between-Until t T (c ∷ calls) h = (h.0.1, Between-Until t T calls h.1)

module _ (fl : Float64) where
  -- A call of Allow for one source leaves the bucket of every other source as it was.
  pub allow_isolates :
      (source other : Bytes) (now : Time) (r : RateLimiter)
      → source ≢ other
      → find_bucket other (allow fl source now r).1.buckets ≡ find_bucket other r.buckets
  unfolding allow
  allow_isolates source other now r ne =
      find_bucket-put_bucket source other _ r.buckets ∙ ground (arith, equal_iff source other)

  -- The lines let through by the calls for one source, among calls for any sources.
  abbrev pub count_allowed : Bytes → List (Bytes × Time) → RateLimiter → ℕ
  count_allowed s [] r = 0
  count_allowed s ((k, now) ∷ calls) r =
      let (taken, r') = allow fl k now r in
      (if equal k s then (if taken then 1 else 0) else 0) + count_allowed s calls r'

  if-token : (b : Bool) → (if b then 1 else 0) * token fl ≡ (if b then token fl else 0)
  if-token true = omega arith
  if-token false = omega arith

  -- What time does to a bucket, and what a call takes out of it.
  record Refilled (rate burst slack : ℕ) (now : Time) (b b' : Bucket) : Type 0 where
    gained : b'.tokens ≤ b.tokens + elapsed b.last b'.last * (rate * fl.grain) + slack
    later : b.last ≤ℤ b'.last
    bounded : (b'.last ≡ now) ⊎ (b'.last ≡ b.last)
    full : b'.tokens ≤ burst * token fl

  refill-Refilled :
      (rate burst slack : ℕ) (now : Time) (b : Bucket)
      → Rounds fl rate burst slack
      → b.tokens ≤ burst * token fl
      → Refilled rate burst slack now b (refill fl rate burst now b)
  unfolding refill
  refill-Refilled rate burst slack now b rounds h = elim (Bool-cases (ltb 0 (elapsed b.last now))) [
    | inl more ↦
        let sum = fl.topped_up b.tokens (elapsed b.last now) rate in
        let near = rounds b.tokens (elapsed b.last now) h in
        let less : b.last ≤ℤ now = ground arith in
        elim (Bool-cases (ltb (burst * token fl) sum)) [
          | inl over ↦
              simp (more, over)
                (record {
                  gained = ground (arith, near, over);
                  later = less;
                  bounded = inl refl;
                  full = omega arith;
                })
          | inr under ↦
              simp (more, under)
                (record {
                  gained = ground (arith, near, under);
                  later = less;
                  bounded = inl refl;
                  full = ground (arith, under);
                })
        ]
    | inr none_passed ↦
        rw none_passed
          (record { gained = omega arith; later = omega arith; bounded = inr refl; full = h })
  ]

  take_token_pays :
      (b : Bucket)
      → ((if (take_token fl b).0 then token fl else 0) + (take_token fl b).1.tokens ≡ b.tokens)
        × ((take_token fl b).1.last ≡ b.last)
  unfolding take_token
  take_token_pays b = elim (Bool-cases (leb (token fl) b.tokens)) [
    | inl enough ↦ rw enough (ground (arith, enough), refl)
    | inr few ↦ rw few (omega arith, refl)
  ]

  -- What one call does with a bucket: units spent and kept are at most those that were there, those
  -- that the passing time brought and what rounding added.
  record Spent (rate burst slack : ℕ) (now : Time) (b : Bucket) (out : Bool × Bucket) : Type 0 where
    paid :
        (if out.0 then token fl else 0) + out.1.tokens
        ≤ b.tokens + elapsed b.last out.1.last * (rate * fl.grain) + slack
    later : b.last ≤ℤ out.1.last
    bounded : (out.1.last ≡ now) ⊎ (out.1.last ≡ b.last)
    full : out.1.tokens ≤ burst * token fl

  step-Spent :
      (rate burst slack : ℕ) (now : Time) (b : Bucket)
      → Rounds fl rate burst slack
      → b.tokens ≤ burst * token fl
      → Spent rate burst slack now b (take_token fl (refill fl rate burst now b))
  step-Spent rate burst slack now b rounds h =
      let f = refill-Refilled rate burst slack now b rounds h in
      let (pays, same) = take_token_pays (refill fl rate burst now b) in
      record {
        paid = rw same (omega (arith, pays, f.gained));
        later = rw same f.later;
        bounded = rw same f.bounded;
        full = omega (arith, pays, f.full);
      }

  allow-own :
      (j s : Bytes) (now : Time) (r : RateLimiter) (b : Bucket)
      → equal j s ≡ true
      → bucket_of fl r.burst now (find_bucket s r.buckets) ≡ b
      → let out = take_token fl (refill fl r.rate r.burst now b) in
        ((allow fl j now r).0 ≡ out.0) × (find_bucket s (allow fl j now r).1.buckets ≡ some out.1)
  unfolding allow
  allow-own j s now r b same e =
      let js : j ≡ s = (equal_iff j s).0 same in
      let known : bucket_of fl r.burst now (find_bucket j r.buckets) ≡ b = rw js e in
      rw known (refl, find_bucket-put_bucket j s _ r.buckets ∙ rw same refl)

  allow-other :
      (j s : Bytes) (now : Time) (r : RateLimiter)
      → equal j s ≡ false
      → find_bucket s (allow fl j now r).1.buckets ≡ find_bucket s r.buckets
  unfolding allow
  allow-other j s now r ne = find_bucket-put_bucket j s _ r.buckets ∙ rw ne refl

  module _ (s : Bytes) (T : Time) (slack : ℕ) where
    -- What is let through from a bucket on is at most what it has, what the time up to `T` brings, and
    -- the rounding of each call.
    abbrev Bounded : ℕ → ℕ → List (Bytes × Time) → RateLimiter → Bucket → Type 0
    Bounded rate burst calls r b =
        b.tokens ≤ burst * token fl
        → b.last ≤ℤ T
        → count_allowed s calls r * token fl
          ≤ b.tokens + elapsed b.last T * (rate * fl.grain) + length calls * slack

    -- The induction step, for a call of the source itself.
    own_call :
        (j : Bytes) (now : Time) (calls : List (Bytes × Time)) (r : RateLimiter) (b : Bucket)
        → Rounds fl r.rate r.burst slack
        → equal j s ≡ true
        → bucket_of fl r.burst now (find_bucket s r.buckets) ≡ b
        → now ≤ℤ T
        → ((b' : Bucket)
            → find_bucket s (allow fl j now r).1.buckets ≡ some b'
            → Bounded r.rate r.burst calls (allow fl j now r).1 b')
        → b.tokens ≤ r.burst * token fl
        → b.last ≤ℤ T
        → ((if (allow fl j now r).0 then 1 else 0) + count_allowed s calls (allow fl j now r).1)
            * token fl
          ≤ b.tokens + elapsed b.last T * (r.rate * fl.grain) + (slack + length calls * slack)
    own_call j now calls r b rounds same e u rest h k =
        let out = take_token fl (refill fl r.rate r.burst now b) in
        let p : Spent r.rate r.burst slack now b out =
          step-Spent r.rate r.burst slack now b rounds h in
        let (ok', found) = allow-own j s now r b same e in
        let last_le : out.1.last ≤ℤ T = bounded-le b.last now out.1.last T p.bounded k u in
        rw (add-mul, if-token, ok')
          (telescope b.last out.1.last T (r.rate * fl.grain) _ out.1.tokens b.tokens _ slack _
            p.later last_le p.paid (rest out.1 found p.full last_le))

    -- A call changes neither the rate nor the capacity.
    same_limits :
        (P : ℕ → ℕ → Type 0) (j : Bytes) (now : Time) (r : RateLimiter)
        → P (allow fl j now r).1.rate (allow fl j now r).1.burst
        → P r.rate r.burst
    unfolding allow
    same_limits P j now r h = h

    keeps_limits :
        (P : ℕ → ℕ → Type 0) (j : Bytes) (now : Time) (r : RateLimiter)
        → P r.rate r.burst
        → P (allow fl j now r).1.rate (allow fl j now r).1.burst
    unfolding allow
    keeps_limits P j now r h = h

    -- A source whose bucket is known is let through as often at most as its tokens and the time up
    -- to `T` allow.
    count_allowed-Bounded :
        (calls : List (Bytes × Time)) (r : RateLimiter)
        → Rounds fl r.rate r.burst slack
        → Until T calls
        → (b : Bucket) → find_bucket s r.buckets ≡ some b
        → Bounded r.rate r.burst calls r b
    unfolding bucket_of
    count_allowed-Bounded [] r rounds u b e h k = omega arith
    count_allowed-Bounded ((j, now) ∷ calls) r rounds u b e h k =
        let next = (allow fl j now r).1 in
        let rounds' = keeps_limits (λ rate burst. Rounds fl rate burst slack) j now r rounds in
        let rest = λ (b' : Bucket) (e' : find_bucket s next.buckets ≡ some b').
          same_limits (λ rate burst. Bounded rate burst calls next b') j now r
            (count_allowed-Bounded calls next rounds' u.1 b' e') in
        elim (Bool-cases (equal j s)) [
          | inl same ↦
              rw same (omega (arith, own_call j now calls r b rounds same (rw e) u.0 rest h k))
          | inr other ↦ rw other (omega (arith, rest b (allow-other j s now r other ∙ e) h k))
        ]

  -- If rounding adds at most a slack to a sum of tokens below the capacity: for a source that a
  -- rate limiter does not know yet, and calls for any sources at times between t and T, the lines
  -- of the source that are let through are at most the burst, the rate times the seconds from t to
  -- T, and the slack for each call.
  pub rate_bound :
      (s : Bytes) (t T : Time) (slack : ℕ) (calls : List (Bytes × Time)) (r : RateLimiter)
      → Rounds fl r.rate r.burst slack
      → find_bucket s r.buckets ≡ none
      → Between t T calls
      → count_allowed s calls r * token fl
        ≤ r.burst * token fl + elapsed t T * (r.rate * fl.grain) + length calls * slack
  unfolding bucket_of
  rate_bound s t T slack [] r rounds e h = omega arith
  rate_bound s t T slack ((j, now) ∷ calls) r rounds e h =
      let next = (allow fl j now r).1 in
      let rounds' =
        keeps_limits s T slack (λ rate burst. Rounds fl rate burst slack) j now r rounds in
      elim (Bool-cases (equal j s)) [
        | inl same ↦
            let full : Bucket = record { tokens = r.burst * token fl; last = now } in
            let rest = λ (b' : Bucket) (e' : find_bucket s next.buckets ≡ some b').
              same_limits s T slack (λ rate burst. Bounded s T slack rate burst calls next b') j now
                r
                (count_allowed-Bounded s T slack calls next rounds' (Between-Until t T calls h.1) b'
                  e') in
            let bound =
              own_call s T slack j now calls r full rounds same (rw e) h.0.1 rest (omega arith)
                h.0.1 in
            let shorter = elapsed_mono t now T (r.rate * fl.grain) h.0.0 in
            rw same (omega (arith, bound, shorter))
        | inr other ↦
            let rest =
              same_limits s T slack
                (λ rate burst.
                  count_allowed s calls next * token fl
                  ≤ burst * token fl + elapsed t T * (rate * fl.grain) + length calls * slack)
                j now r
                (rate_bound s t T slack calls next rounds' (allow-other j s now r other ∙ e) h.1) in
            rw other (omega (arith, rest))
      ]

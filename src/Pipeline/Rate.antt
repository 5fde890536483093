-- ===== src/Pipeline/Rate.antt =====
-- internal/pipeline/rate.go: `RateLimiter`, one token bucket for each source name.
-- The code counts tokens in `float64`. What the language's arithmetic makes of a sum is an argument;
-- comparing, and taking 1 from what is 1 at least, are exact, and so are the rate and the burst, which
-- are below 2^53.
pub mod Bound
use blackboxd.Prelude.{
  ℕ, zero, suc, ◌+◌, ◌-◌, ◌*◌, Bool, true, false, List, [], ◌∷◌, Option, none, some, ltb, leb,
  if◌then◌else◌,
}
use blackboxd.Prelude.Int.{ℤ, pos, negsuc, pos_part, neg_part}
use blackboxd.Bytes.{Bytes, equal}
use blackboxd.Entry.{Time}

-- `float64`, for values that are not negative. Each is a multiple of 2^-1074; `grain` stands for
-- 2^1074. Tokens are counted in units of which a token has 10^9 times the grain, so that a rate of one
-- token a second is `grain` units in a nanosecond. `topped_up tokens ns rate` is what
-- `tokens + elapsed.Seconds()*rate` gives, with its rounding.
pub record Float64 : Type 0 where
  pub grain : ℕ
  pub topped_up : ℕ → ℕ → ℕ → ℕ

-- One token, in units.
abbrev pub token : Float64 → ℕ
token fl = 1000000000 * fl.grain

-- `bucket`.
pub record Bucket : Type 0 where
  pub tokens : ℕ
  pub last : Time

-- `RateLimiter`: tokens a second, and the capacity of a bucket in tokens.
pub record RateLimiter : Type 0 where
  pub rate : ℕ
  pub burst : ℕ
  pub buckets : List (Bytes × Bucket)

-- An `int` of the caller, or what stands for one that is not positive.
unfoldable pub or_default : ℕ → ℤ → ℕ
or_default d (pos zero) = d
or_default d (pos (suc n)) = suc n
or_default d (negsuc n) = d

-- `NewRateLimiter`.
unfoldable pub new_rate_limiter : ℤ → ℤ → RateLimiter
new_rate_limiter lines_per_sec burst = record {
  rate = or_default 10000 lines_per_sec;
  burst = or_default (or_default 10000 lines_per_sec) burst;
  buckets = [];
}

unfoldable pub find_bucket : Bytes → List (Bytes × Bucket) → Option Bucket
find_bucket k [] = none
find_bucket k ((j, b) ∷ m) = if equal j k then some b else find_bucket k m

unfoldable pub put_bucket : Bytes → Bucket → List (Bytes × Bucket) → List (Bytes × Bucket)
put_bucket k b [] = (k, b) ∷ []
put_bucket k b ((j, c) ∷ m) = if equal j k then (k, b) ∷ m else (j, c) ∷ put_bucket k b m

-- `now.Sub(last)` in nanoseconds where it is positive, and 0 where it is not.
abbrev pub elapsed : Time → Time → ℕ
elapsed last now = pos_part now + neg_part last - (pos_part last + neg_part now)

module _ (fl : Float64) where
  -- `if elapsed > 0 { ... }`: the tokens of the time that passed, up to the capacity.
  unfoldable pub refill : ℕ → ℕ → Time → Bucket → Bucket
  refill rate burst now b =
      if ltb 0 (elapsed b.last now)
      then record {
        tokens =
            if ltb (burst * token fl) (fl.topped_up b.tokens (elapsed b.last now) rate)
            then burst * token fl
            else fl.topped_up b.tokens (elapsed b.last now) rate;
        last = now;
      }
      else b

  -- `if b.tokens >= 1 { b.tokens--; return true }; return false`.
  unfoldable pub take_token : Bucket → Bool × Bucket
  take_token b =
      if leb (token fl) b.tokens
      then (true, record b { tokens = b.tokens - token fl })
      else (false, b)

  -- The bucket of a source; a new one is full.
  unfoldable pub bucket_of : ℕ → Time → Option Bucket → Bucket
  bucket_of burst now none = record { tokens = burst * token fl; last = now }
  bucket_of burst now (some b) = b

  -- `Allow`. The bucket is shared with the map, so the map has its new value.
  unfoldable pub allow : Bytes → Time → RateLimiter → Bool × RateLimiter
  allow source now r =
      let b = bucket_of r.burst now (find_bucket source r.buckets) in
      let (taken, b') = take_token (refill r.rate r.burst now b) in
      (taken, record r { buckets = put_bucket source b' r.buckets })

-- ===== src/Transport/Publisher/Counters.antt =====
-- internal/transport/spool.go: the counters of a spool, which a replay leaves alone.
use blackboxd.Prelude.{ℕ, ◌≡◌, refl, inl, inr, Option, none, some, Bool-cases}
use blackboxd.Bytes.{Bytes}
use blackboxd.Transport.Spool.{Spool, read, delete}
use blackboxd.Transport.Publisher.{
  SpooledPublisher, answer, upstream_publish, Replay, replay_body, replay_file,
}

-- The counters of the spool, its last number and its drops.
abbrev pub seq_of : Option Spool → ℕ
seq_of none = 0
seq_of (some s) = s.seq

abbrev pub drops_of : Option Spool → ℕ
drops_of none = 0
drops_of (some s) = s.drops

-- The spool's counters are those of another state.
abbrev pub SameCounters : SpooledPublisher → SpooledPublisher → Type 0
SameCounters p p' = (seq_of p'.spool ≡ seq_of p.spool) × (drops_of p'.spool ≡ drops_of p.spool)

replay_body-SameCounters :
    (r : Replay) (k : Bytes) (p : SpooledPublisher) (s : Spool) (o : Option Bytes)
    → p.spool ≡ some s
    → SameCounters p (replay_body r k p s o).1
unfolding replay_body upstream_publish delete
replay_body-SameCounters r k p s none e = (refl, refl)
replay_body-SameCounters r k p s (some body) e = elim (Bool-cases (answer p.upstream.answers)) [
  | inl acked ↦ elim (Bool-cases (r.delete_fails k)) [
    | inl kept ↦ simp (acked, kept, e) (refl, refl)
    | inr gone ↦ simp (acked, gone, e) (refl, refl)
  ]
  | inr refused ↦ simp refused (refl, refl)
]

pub replay_file-SameCounters :
    (r : Replay) (k : Bytes) (p : SpooledPublisher) (o : Option Spool)
    → p.spool ≡ o
    → SameCounters p (replay_file r k p o).1
unfolding replay_file
replay_file-SameCounters r k p none e = (refl, refl)
replay_file-SameCounters r k p (some s) e = elim (Bool-cases (r.ctx_done k)) [
  | inl done ↦ rw done (refl, refl)
  | inr goes_on ↦ rw goes_on (replay_body-SameCounters r k p s (read k s) e)
]

-- ===== src/Pipeline/Batcher/Life.antt =====
-- internal/pipeline/batcher.go with ring.go: a whole run of a batcher, with what producers push in between.
use blackboxd.Prelude.{
  length-map, ℕ, zero, suc, ◌<◌, ◌≡◌, refl, ◌∙◌, sym, inl, inr, Bool, true, false, List, [], ◌∷◌,
  ◌++◌, some, if◌then◌else◌, Bool-cases, drop, map, append_assoc, append-nil, arith,
}
use mathlib.Core.List.{map-append}
use blackboxd.Prelude.Int.{ℤ, pos, negsuc}
use blackboxd.Entry.{LogEntry}
use blackboxd.Pipeline.Ring.{RingBuffer, push, close, new_ring_buffer, approx_bytes}
use blackboxd.Pipeline.Ring.Refine.{Refines, new_ring_buffer-Refines, push-Refines, close-Refines}
use blackboxd.Pipeline.Queue
use blackboxd.Pipeline.Queue.{Queue, excess}
use blackboxd.Pipeline.Queue.Caps.{excess-le}
use blackboxd.Pipeline.Batcher.{
  Batcher, new_batcher, size_of_config, start, drain, Event, ctx_done, ring_closed, interval,
  notified, turn,
}
use blackboxd.Pipeline.Batcher.Order.{
  concat, IsReady, history, queue_of, queue_of-Refines, drain_then, undrained, remaining,
  turn_keeps_history,
}
use blackboxd.Pipeline.Batcher.Thinned.{Thinned, ends, Thinned-snoc, Thinned-drop, drop-map-some}
use blackboxd.Pipeline.Batcher.Drops.{drain-SameDrops, flush_if_full-SameDrops, turn-SameDrops}

-- What happens while `Run` runs: a producer's `Push`, a `Close`, or an event that the `select` receives.
pub data Moment : Type 0 where
  pushing : LogEntry → Moment
  closing : Moment
  receiving : Event → Moment

-- The events on which `Run` returns.
unfoldable pub returns : Event → Bool
returns ctx_done = true
returns ring_closed = true
returns interval = false
returns notified = false

unfoldable pub taken_entry : Bool → LogEntry → List LogEntry
taken_entry true e = e ∷ []
taken_entry false e = []

-- The entries that the ring took, in the order of their pushes, and the batcher at the end, or where `Run` returns.
unfoldable pub run : List Moment → Batcher → List LogEntry × Batcher
run [] b = ([], b)
run (pushing e ∷ ms) b =
    let (ok', r) = push e b.ring in
    let (es, b') = run ms (record b { ring = r }) in (taken_entry ok' e ++ es, b')
run (closing ∷ ms) b = run ms (record b { ring = close b.ring })
run (receiving ev ∷ ms) b =
    let b' = turn ev b in let rest = run ms b' in if returns ev then ([], b') else rest

-- Pushes before `Run` is called, its first lines, and what comes then.
unfoldable pub life : List LogEntry → List Moment → Batcher → List LogEntry × Batcher
life early ms b =
    let (es, b') = run (map pushing early) b in
    let (es', b'') = run ms (start b') in (es ++ es', b'')

-- The batcher has taken these entries, and has them all but those that the ring counts as dropped.
pub record Accounts (taken : List LogEntry) (b : Batcher) : Type 0 where
  pub entries : List LogEntry
  pub ready : IsReady b entries
  pub accounts : Thinned b.ring.drops (map some taken) (history b entries)

Accounts-turn :
    (ev : Event) (b : Batcher) {ts : List LogEntry}
    → b.has_flush ≡ true
    → Accounts ts b
    → Accounts ts (turn ev b)
Accounts-turn ev b cb a =
    let (ready, same) = turn_keeps_history ev b a.entries cb a.ready in
    record {
      entries = remaining ev b a.entries;
      ready = ready;
      accounts = rw (same, (turn-SameDrops ev b).same_drops) a.accounts;
    }

Accounts-start :
    (b : Batcher) {ts : List LogEntry} → b.has_flush ≡ true → Accounts ts b → Accounts ts (start b)
unfolding start
Accounts-start b cb a =
    let (ready, same) = (drain_then b cb a.ready).1 in
    let drops = flush_if_full-SameDrops b (drain b) (drain-SameDrops b) in
    record {
      entries = undrained b a.entries;
      ready = ready;
      accounts = rw (same, drops.same_drops) a.accounts;
    }

-- A batcher with another ring.
with_ring : Batcher → RingBuffer → Batcher
with_ring b r = record b { ring = r }

-- What is left of the accounts, with a ring that stands for a queue.
Accounts-Refines :
    (b : Batcher) {ts es : List LogEntry} {r : RingBuffer} {q : Queue}
    → IsReady b es
    → Refines r q
    → Thinned q.drops (map some ts) (history b q.items)
    → Accounts ts (with_ring b r)
unfolding with_ring
Accounts-Refines b {q = q} ready f t = record {
  entries = q.items;
  ready = record { holds = f.holds; room = ready.room; sizes = ready.sizes };
  accounts = rw f.same_drops t;
}

Accounts-close :
    (b : Batcher) {ts : List LogEntry} → Accounts ts b → Accounts ts (with_ring b (close b.ring))
unfolding Queue.close
Accounts-close b a =
    Accounts-Refines b a.ready (close-Refines (queue_of-Refines a.ready.holds)) a.accounts

-- The history of a queue that made room for an entry at its end.
admitted_history :
    (b : Batcher) (es : List LogEntry) (g : ℕ) (e : LogEntry)
    → history b (drop g es ++ (e ∷ []))
      ≡ ((concat b.flushed ++ b.pending) ++ drop g (map some es)) ++ (some e ∷ [])
admitted_history b es g e =
    let seen = concat b.flushed ++ b.pending in
    rw (map-append, drop-map-some)
      (sym (append_assoc (concat b.flushed) b.pending _) ∙ sym (append_assoc seen _ (some e ∷ [])))

Thinned-admit :
    (b : Batcher) (ts : List LogEntry) (e : LogEntry) (q : Queue)
    → Thinned q.drops (map some ts) (history b q.items)
    → let q' = Queue.admit e q in Thinned q'.drops (map some (ts ++ (e ∷ []))) (history b q'.items)
unfolding Queue.admit
Thinned-admit b ts e q t =
    let g = excess q.max_entries q.max_bytes (approx_bytes e) q.items in
    let few = excess-le q.max_entries q.max_bytes (approx_bytes e) q.items in
    rw (admitted_history b q.items g e, map-append)
      (Thinned-snoc (some e) (
        Thinned-drop g (concat b.flushed ++ b.pending) (map some q.items)
          (omega (arith, length-map some q.items, few)) (rw append_assoc t)))

push_shut : (e : LogEntry) (q : Queue) → q.closed ≡ true → Queue.push e q ≡ (false, q)
unfolding Queue.push
push_shut e q shut = simp shut refl

push_opened :
    (e : LogEntry) (q : Queue) → q.closed ≡ false → Queue.push e q ≡ (true, Queue.admit e q)
unfolding Queue.push
push_opened e q opened = simp opened refl

Accounts-push :
    (e : LogEntry) (b : Batcher) {ts : List LogEntry}
    → Accounts ts b
    → let (done, r) = push e b.ring in Accounts (ts ++ taken_entry done e) (with_ring b r)
unfolding taken_entry
Accounts-push e b {ts} a =
    let q = queue_of b.ring a.entries in
    let (same, f) = push-Refines e (queue_of-Refines a.ready.holds) in
    elim (Bool-cases q.closed) [
      | inl shut ↦
          let none_in = push_shut e q shut in
          rw (same, none_in, append-nil) (Accounts-Refines b a.ready (rw none_in at f) a.accounts)
      | inr opened ↦
          let one_in = push_opened e q opened in
          rw (same, one_in)
            (Accounts-Refines b a.ready (rw one_in at f) (Thinned-admit b ts e q a.accounts))
    ]

has_flush-start : (b : Batcher) → (start b).has_flush ≡ b.has_flush
unfolding start
has_flush-start b = (flush_if_full-SameDrops b (drain b) (drain-SameDrops b)).same_callback

run-Accounts :
    (ms : List Moment) (b : Batcher) (ts : List LogEntry)
    → b.has_flush ≡ true
    → Accounts ts b
    → Accounts (ts ++ (run ms b).0) (run ms b).1
unfolding run with_ring returns
run-Accounts [] b ts cb a = rw append-nil a
run-Accounts (pushing e ∷ ms) b ts cb a =
    rw⁻¹ append_assoc (run-Accounts ms _ _ cb (Accounts-push e b a))
run-Accounts (closing ∷ ms) b ts cb a = run-Accounts ms _ ts cb (Accounts-close b a)
run-Accounts (receiving ev ∷ ms) b ts cb a =
    let next = Accounts-turn ev b cb a in
    elim (Bool-cases (returns ev)) [
      | inl ended ↦ rw (ended, append-nil) next
      | inr goes_on ↦
          rw goes_on
            (run-Accounts ms (turn ev b) ts ((turn-SameDrops ev b).same_callback ∙ cb) next)
    ]

run-has_flush :
    (early : List LogEntry) (b : Batcher) → (run (map pushing early) b).1.has_flush ≡ b.has_flush
unfolding run
run-has_flush [] b = refl
run-has_flush (e ∷ es) b = run-has_flush es _

size_of_config-pos : (size : ℤ) → 0 < size_of_config size
unfolding size_of_config
size_of_config-pos (pos zero) = omega arith
size_of_config-pos (pos (suc n)) = omega arith
size_of_config-pos (negsuc n) = omega arith

new-Accounts :
    (max_entries max_bytes size : ℤ)
    → Accounts [] (new_batcher (new_ring_buffer max_entries max_bytes) size true)
unfolding new_batcher new_ring_buffer Queue.new_queue
new-Accounts n m size = record {
  entries = [];
  ready = record {
    holds = (new_ring_buffer-Refines n m).holds;
    room = size_of_config-pos size;
    sizes = tt;
  };
  accounts = ends;
}

-- For a batcher with a flush callback on a new ring, of any caps and any batch size, and any
-- pushes before Run and any pushes, closes and events while it runs: the flushed batches, the
-- pending batch and the ring together are the entries that the ring took, in the order of their
-- pushes, without as many of them as the ring counts as dropped; and the flushed batches have
-- between one and batch_size entries.
pub life-Accounts :
    (max_entries max_bytes size : ℤ) (early : List LogEntry) (ms : List Moment)
    → let (taken, b) =
        life early ms (new_batcher (new_ring_buffer max_entries max_bytes) size true) in
      Accounts taken b
unfolding life new_batcher
life-Accounts n m size early ms =
    let b0 = new_batcher (new_ring_buffer n m) size true in
    let b = (run (map pushing early) b0).1 in
    let cb : b.has_flush ≡ true = run-has_flush early b0 in
    run-Accounts ms (start b) _ (has_flush-start b ∙ cb)
      (Accounts-start b cb (run-Accounts (map pushing early) b0 [] refl (new-Accounts n m size)))

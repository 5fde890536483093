-- ===== src/Pipeline/Batcher/Leftovers.antt =====
-- What the batcher leaves in the ring: at its return, and while no producer pushes.
use blackboxd.Prelude.{
  length-map, ℕ, zero, suc, ◌-◌, ◌≤◌, ◌≡◌, ◌↔◌, refl, ap, ◌∙◌, sym, inl, inr, true, false, List, [],
  ◌∷◌, ◌++◌, none, some, ◌==◌, Bool-cases, get_or, length, length-append, length-drop,
  drop_of_length_le, map, append-nil, arith,
}
use blackboxd.Prelude.Int.{ℤ, pos, negsuc}
use blackboxd.Entry.{LogEntry}
use blackboxd.Pipeline.Ring.{RingBuffer, Slot, remove_head, pop_loop, pop_batch}
use blackboxd.Pipeline.Ring.Invariant.{Holds}
use blackboxd.Pipeline.Batcher.{
  Batcher, flush, drain, flush_if_full, ring_closed, interval, notified, turn,
}
use blackboxd.Pipeline.Batcher.Order.{concat, IsReady, history, undrained, turn_keeps_history}

nil_of_length : (xs : List Slot) → (length xs == 0) ≡ true → xs ≡ []
nil_of_length [] h = refl
nil_of_length (x ∷ xs) h = absurd (ground arith)

flush_empties : (b : Batcher) → (flush b).pending ≡ []
unfolding flush
flush_empties b = elim (Bool-cases (length b.pending == 0)) [
  | inl empty ↦ rw empty (nil_of_length b.pending empty)
  | inr full ↦ rw full refl
]

-- Behind the last flush the history is what was flushed and what is left in the ring.
shutdown_history :
    (b : Batcher) (es : List LogEntry)
    → b.has_flush ≡ true
    → IsReady b es
    → concat (turn ring_closed b).flushed ++ map some (undrained b es) ≡ history b es
unfolding turn
shutdown_history b es cb h =
    rw (flush_empties (drain b)) at ((turn_keeps_history ring_closed b es cb h).1)

-- For a batcher with a flush callback, whose ring holds a list of entries, whose pending batch is
-- not full and whose flushed batches have between one and batch_size entries, the turn on a closed
-- ring flushes everything that was pending or in the ring if and only if the entries of the ring
-- fit in what is left of one batch.
pub shutdown_flushes_iff :
    (b : Batcher) (es : List LogEntry)
    → b.has_flush ≡ true
    → IsReady b es
    → (concat (turn ring_closed b).flushed ≡ history b es)
      ↔ (length es ≤ b.batch_size - length b.pending)
shutdown_flushes_iff b es cb h =
    let kept = shutdown_history b es cb h in
    let out = concat (turn ring_closed b).flushed in
    (
      λ all. omega (
        arith,
        ap length kept,
        ap length all,
        length-append out (map some (undrained b es)),
        length-map some (undrained b es),
        length-drop (b.batch_size - length b.pending) es,
      ),
      λ fits.
          sym (append-nil out)
          ∙ rw (drop_of_length_le (b.batch_size - length b.pending) es fits) at kept,
    )

pop_loop_signalled :
    (n : ℕ) (out : List Slot) (r : RingBuffer) → (pop_loop n out r).1.signalled ≡ r.signalled
unfolding pop_loop remove_head
pop_loop_signalled zero out r = refl
pop_loop_signalled (suc n) out r =
    ground (arith, pop_loop_signalled n (out ++ (get_or r.buf r.head none ∷ [])) (remove_head r))

pop_batch_signalled : (n : ℤ) (r : RingBuffer) → (pop_batch n r).1.signalled ≡ r.signalled
unfolding pop_batch
pop_batch_signalled (pos n) r = pop_loop_signalled n [] r
pop_batch_signalled (negsuc n) r = refl

flush_ring : (b : Batcher) → (flush b).ring ≡ b.ring
unfolding flush
flush_ring b = ground arith

flush_if_full_ring : (b : Batcher) → (flush_if_full b).ring ≡ b.ring
unfolding flush_if_full
flush_if_full_ring b = ground (arith, flush_ring b)

-- The turns of the interval timer, with no push in between.
abbrev pub ticks : ℕ → Batcher → Batcher
ticks zero b = b
ticks (suc n) b = ticks n (turn interval b)

ticks_ring : (n : ℕ) (b : Batcher) → (ticks n b).ring ≡ b.ring
unfolding turn
ticks_ring zero b = refl
ticks_ring (suc n) b = ticks_ring n (flush b) ∙ flush_ring b

notified_signalled : (b : Batcher) → (turn notified b).ring.signalled ≡ false
unfolding turn drain
notified_signalled b =
    ap (λ (r : RingBuffer). r.signalled) (flush_if_full_ring _) ∙ pop_batch_signalled _ _

-- For a batcher with a flush callback, whose ring holds a list of entries, whose pending batch is
-- not full and whose flushed batches have between one and batch_size entries, after the turn on a
-- notification and any number of interval turns with no push between, the ring still holds the
-- entries that did not fit in the one batch, and no notification is pending.
pub notified_leaves_rest :
    (n : ℕ) (b : Batcher) (es : List LogEntry)
    → b.has_flush ≡ true
    → IsReady b es
    → let r = (ticks n (turn notified b)).ring in
      Holds r (undrained b es)
      × (r.signalled ≡ false)
      × (r.size ≡ length es - (b.batch_size - length b.pending))
notified_leaves_rest n b es cb h =
    let (ready, same) = turn_keeps_history notified b es cb h in
    rw (ticks_ring n (turn notified b)) (
      ready.holds,
      notified_signalled b,
      ready.holds.size_is ∙ length-drop (b.batch_size - length b.pending) es,
    )

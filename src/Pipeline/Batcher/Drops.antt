-- ===== src/Pipeline/Batcher/Drops.antt =====
-- No turn of the batcher drops an entry of the ring or takes its callback away.
use blackboxd.Prelude.{
  ℕ, zero, suc, ◌≡◌, refl, inl, inr, List, [], Bool-cases, ltb, leb, ◌==◌, length,
}
use blackboxd.Prelude.Int.{ℤ, pos, negsuc}
use blackboxd.Pipeline.Ring.{RingBuffer, Slot, remove_head, pop_loop, pop_batch}
use blackboxd.Pipeline.Batcher.{
  Batcher, flush, drain, flush_if_full, Event, ctx_done, ring_closed, interval, notified, turn,
}

-- No turn drops an entry or takes the callback away.
pub record SameDrops (b b' : Batcher) : Type 0 where
  pub same_drops : b'.ring.drops ≡ b.ring.drops
  pub same_callback : b'.has_flush ≡ b.has_flush

pop_loop-drops : (n : ℕ) (out : List Slot) (r : RingBuffer) → (pop_loop n out r).1.drops ≡ r.drops
unfolding pop_loop remove_head
pop_loop-drops zero out r = refl
pop_loop-drops (suc n) out r = elim (Bool-cases (ltb 0 r.size)) [
  | inl some_left ↦ rw some_left (pop_loop-drops n _ (remove_head r))
  | inr empty ↦ rw empty refl
]

pop_batch-drops : (n : ℤ) (r : RingBuffer) → (pop_batch n r).1.drops ≡ r.drops
unfolding pop_batch
pop_batch-drops (pos n) r = pop_loop-drops n [] r
pop_batch-drops (negsuc n) r = refl

pub drain-SameDrops : (b : Batcher) → SameDrops b (drain b)
unfolding drain
drain-SameDrops b = record { same_drops = pop_batch-drops _ b.ring; same_callback = refl }

flush-SameDrops : (b b' : Batcher) → SameDrops b b' → SameDrops b (flush b')
unfolding flush
flush-SameDrops b b' h = elim (Bool-cases (length b'.pending == 0)) [
  | inl empty ↦ rw empty h
  | inr full ↦ rw full (record { same_drops = h.same_drops; same_callback = h.same_callback })
]

pub flush_if_full-SameDrops : (b b' : Batcher) → SameDrops b b' → SameDrops b (flush_if_full b')
unfolding flush_if_full
flush_if_full-SameDrops b b' h = elim (Bool-cases (leb b'.batch_size (length b'.pending))) [
  | inl full ↦ rw full (flush-SameDrops b b' h)
  | inr part ↦ rw part h
]

pub turn-SameDrops : (ev : Event) (b : Batcher) → SameDrops b (turn ev b)
unfolding turn
turn-SameDrops ctx_done b = flush-SameDrops b (drain b) (drain-SameDrops b)
turn-SameDrops ring_closed b = flush-SameDrops b (drain b) (drain-SameDrops b)
turn-SameDrops interval b = flush-SameDrops b b (record { same_drops = refl; same_callback = refl })
turn-SameDrops notified b = flush_if_full-SameDrops b _ (record {
  same_drops = (drain-SameDrops _).same_drops;
  same_callback = (drain-SameDrops _).same_callback;
})

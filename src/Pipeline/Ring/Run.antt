-- ===== src/Pipeline/Ring/Run.antt =====
-- Sequences of calls on a ring buffer of internal/pipeline/ring.go, against its queue.
use blackboxd.Prelude.{◌+◌, ◌≤◌, ◌⊎◌, inr, ◌≡◌, refl, ap, ap₂, List, [], ◌∷◌, length, arith}
use blackboxd.Prelude.Int.{ℤ}
use blackboxd.Pipeline.Ring.{
  RingBuffer, push, try_pop, pop_batch, close, new_ring_buffer, len, entry_cap, byte_cap,
}
use blackboxd.Pipeline.Ring.Refine.{
  Refines, new_ring_buffer-Refines, push-Refines, try_pop-Refines, pop_batch-Refines, close-Refines,
}
use blackboxd.Pipeline.Ring.Invariant.{entry_cap-pos}
use blackboxd.Pipeline.Queue.Accounts.{
  all_entered, all_left, WithinCaps, run-WithinCaps, run-SameCaps, run-balance,
}
use blackboxd.Pipeline.Queue
use blackboxd.Pipeline.Queue.{
  Queue, Op, push_entry, pop_one, pop_many, shut, Reply, taken, popped, batch, shut_down,
}

-- One call on the ring.
unfoldable pub step : Op → RingBuffer → Reply × RingBuffer
step (push_entry e) r = let (b, r') = push e r in (taken b, r')
step pop_one r = let (e, drained, r') = try_pop r in (popped e drained, r')
step (pop_many n) r = let (es, r') = pop_batch n r in (batch es, r')
step shut r = (shut_down, close r)

unfoldable pub run : List Op → RingBuffer → List Reply × RingBuffer
unfolding step
run [] r = ([], r)
run (op ∷ ops) r =
    let (reply, r') = step op r in let (replies, r'') = run ops r' in (reply ∷ replies, r'')

step-Refines :
    (op : Op) {r : RingBuffer} {q : Queue}
    → Refines r q
    → ((step op r).0 ≡ (Queue.step op q).0) × Refines (step op r).1 (Queue.step op q).1
unfolding step Queue.step
step-Refines (push_entry e) f = let (same, next) = push-Refines e f in (ap taken same, next)
step-Refines pop_one f =
    let (same, drained, next) = try_pop-Refines f in (ap₂ popped same drained, next)
step-Refines (pop_many n) f = let (same, next) = pop_batch-Refines n f in (ap batch same, next)
step-Refines shut f = (refl, close-Refines f)

run-Refines_from :
    (ops : List Op) {r : RingBuffer} {q : Queue}
    → Refines r q
    → ((run ops r).0 ≡ (Queue.run ops q).0) × Refines (run ops r).1 (Queue.run ops q).1
unfolding run Queue.run
run-Refines_from [] f = (refl, f)
run-Refines_from (op ∷ ops) f =
    let (same, next) = step-Refines op f in
    let (later, last) = run-Refines_from ops next in (ap₂ ◌∷◌ same later, last)

-- For every pair of caps and every sequence of pushes, pops, batch pops and closes, a new ring
-- buffer gives the same replies as a bounded drop-oldest queue, and ends with the length and the
-- drop count of that queue.
pub run_refines :
    (max_entries max_bytes : ℤ) (ops : List Op)
    → let (replies, r) = run ops (new_ring_buffer max_entries max_bytes) in
      let (replies', q) = Queue.run ops (Queue.new_queue max_entries max_bytes) in
      (replies ≡ replies') × (len r ≡ length q.items) × (r.drops ≡ q.drops)
unfolding len
run_refines n m ops =
    let (same, f) = run-Refines_from ops (new_ring_buffer-Refines n m) in
    (same, f.holds.size_is, f.same_drops)

-- After any sequence of calls a new ring buffer holds no more entries than its entry cap, and no
-- more bytes than its byte cap unless it has no byte cap or holds a single entry.
pub run_caps :
    (max_entries max_bytes : ℤ) (ops : List Op)
    → let (replies, r) = run ops (new_ring_buffer max_entries max_bytes) in
      (r.size ≤ entry_cap max_entries)
      × ((byte_cap max_bytes ≡ 0) ⊎ (r.bytes ≤ byte_cap max_bytes) ⊎ (r.size ≤ 1))
unfolding Queue.new_queue
run_caps n m ops =
    let q = Queue.new_queue n m in
    let (same, f) = run-Refines_from ops (new_ring_buffer-Refines n m) in
    let w : WithinCaps (Queue.run ops q).1 =
      run-WithinCaps ops (record {
        room = entry_cap-pos n;
        count = omega arith;
        weight = inr (inr (omega arith));
      }) in
    let caps = run-SameCaps ops q in
    (
      omega (arith, f.holds.size_is, w.count, caps.0),
      omega (arith, f.holds.size_is, f.holds.bytes_is, w.weight, caps.1),
    )

-- After any sequence of calls on a new ring buffer, the entries that it took are as many as those
-- that it handed out, those that it counts as dropped and those that are still in it.
pub run_balance :
    (max_entries max_bytes : ℤ) (ops : List Op)
    → let (replies, r) = run ops (new_ring_buffer max_entries max_bytes) in
      all_entered replies ≡ r.size + r.drops + all_left replies
unfolding Queue.new_queue
run_balance n m ops =
    let q = Queue.new_queue n m in
    let (same, f) = run-Refines_from ops (new_ring_buffer-Refines n m) in
    rw same (omega (arith, run-balance ops q, f.holds.size_is, f.same_drops))

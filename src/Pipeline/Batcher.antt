-- ===== src/Pipeline/Batcher.antt =====
-- internal/pipeline/batcher.go: the goroutine that drains the ring and hands batches to `Flush`.
-- A turn of its `select` is one step on the event received; what producers push in between is a
-- change of the ring alone. An error of `Flush` is only logged, so it has no part here.
pub mod Order
pub mod Leftovers
pub mod Thinned
pub mod Drops
pub mod Life
use blackboxd.Prelude.{
  ℕ, zero, suc, Bool, true, false, List, [], ◌∷◌, ◌++◌, leb, ◌==◌, if◌then◌else◌, length,
}
use blackboxd.Prelude.Int.{ℤ, pos, negsuc, sub_ℕ}
use blackboxd.Pipeline.Ring.{RingBuffer, Slot, pop_batch}

-- `Batcher` with the variable `pending` of `Run`; `flushed` are the batches that `Flush` was called
-- with, in order.
pub record Batcher : Type 0 where
  pub ring : RingBuffer
  pub batch_size : ℕ
  pub has_flush : Bool
  pub pending : List Slot
  pub flushed : List (List Slot)

-- The batch size of a config: `NewBatcher` puts 100 for a size that is not positive.
unfoldable pub size_of_config : ℤ → ℕ
size_of_config (pos zero) = 100
size_of_config (pos (suc n)) = suc n
size_of_config (negsuc n) = 100

-- `NewBatcher`, and the empty `pending` with which `Run` starts.
unfoldable pub new_batcher : RingBuffer → ℤ → Bool → Batcher
new_batcher ring size has_flush = record {
  ring = ring;
  batch_size = size_of_config size;
  has_flush = has_flush;
  pending = [];
  flushed = [];
}

-- The closure `flush`: with no callback the batch is dropped.
unfoldable pub flush : Batcher → Batcher
flush b = if length b.pending == 0 then b else record b {
  pending = [];
  flushed = if b.has_flush then b.flushed ++ (b.pending ∷ []) else b.flushed;
}

-- The closure `drain`: one `PopBatch` of as many entries as the batch has room for.
unfoldable pub drain : Batcher → Batcher
drain b =
    let (more, ring') = pop_batch (sub_ℕ b.batch_size (length b.pending)) b.ring in
    record b { ring = ring'; pending = b.pending ++ more }

-- `if len(pending) >= b.cfg.BatchSize { flush("size") }`.
unfoldable pub flush_if_full : Batcher → Batcher
flush_if_full b = if leb b.batch_size (length b.pending) then flush b else b

-- `Run` up to its loop.
unfoldable pub start : Batcher → Batcher
start b = flush_if_full (drain b)

-- What the `select` receives.
pub data Event : Type 0 where
  ctx_done ring_closed interval notified : Event

-- One turn of the loop. `ctx_done` and `ring_closed` return from `Run`. A receive from `Notify`
-- empties that channel.
unfoldable pub turn : Event → Batcher → Batcher
turn ctx_done b = flush (drain b)
turn ring_closed b = flush (drain b)
turn interval b = flush b
turn notified b = flush_if_full (drain (record b { ring = record (b.ring) { signalled = false } }))

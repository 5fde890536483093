-- ===== src/Tests/Pipeline.antt =====
-- Rings, batchers and rate limiters of internal/pipeline at fixed inputs.
use blackboxd.Pipeline.Batcher.Life.{
  Moment, pushing, closing, receiving, life, Accounts, life-Accounts,
}
use blackboxd.Pipeline.Serialize
use blackboxd.Pipeline.Serialize.{
  Codec, decoded, no_more, encode_lines, write_line, compressed, serialize_batch, decode_batch,
  decode_batch-serialize_batch,
}
use blackboxd.Prelude.{
  sym, ◌+◌, ◌-◌, ◌*◌, ◌≤◌, ◌≡◌, ◌↔◌, refl, ◌⊎◌, true, false, List, [], ◌∷◌, none, some, length,
  arith,
}
use blackboxd.Prelude.Int.{pos, negsuc}
use blackboxd.Bytes.{Bytes, bytes, equal}
use blackboxd.Entry.{Time, LogEntry, empty_entry}
use blackboxd.Pipeline.Ring.{
  RingBuffer, new_ring_buffer, push, entry_cap, byte_cap, len, try_pop, pop_batch, append_entry,
  evict, over_cap, remove_head, close, pop_loop,
}
use blackboxd.Pipeline.Ring.Invariant.{Holds}
use blackboxd.Pipeline.Ring.Refine.{Refines, new_ring_buffer-Refines, push-Refines}
use blackboxd.Pipeline.Ring.Run.{run, run_refines, run_caps, run_balance}
use blackboxd.Pipeline.Queue
use blackboxd.Pipeline.Queue.{
  Queue, Op, push_entry, pop_one, pop_many, shut, taken, popped, batch, shut_down,
}
use blackboxd.Pipeline.Queue.Accounts.{all_entered, all_left}
use blackboxd.Pipeline.Batcher.{
  Batcher, new_batcher, size_of_config, ring_closed, notified, turn, flush, drain,
}
use blackboxd.Pipeline.Batcher.Order.{IsReady, concat, history, undrained}
use blackboxd.Pipeline.Batcher.Leftovers.{ticks, shutdown_flushes_iff, notified_leaves_rest}
use blackboxd.Pipeline.Rate.{
  Float64, RateLimiter, new_rate_limiter, allow, find_bucket, elapsed, token, take_token, refill,
  bucket_of, or_default, put_bucket,
}
use blackboxd.Pipeline.Rate.Bound.{Rounds, count_allowed, rate_bound}

abbrev first_entry : LogEntry
first_entry = record empty_entry { message = bytes "one" }

abbrev second_entry : LogEntry
second_entry = record empty_entry { message = bytes "two" }

abbrev third_entry : LogEntry
third_entry = record empty_entry { message = bytes "three" }

-- Three pushes into a ring of two, then pops and a close.
abbrev calls : List Op
calls =
    push_entry first_entry
    ∷ push_entry second_entry
    ∷ push_entry third_entry
    ∷ pop_one
    ∷ shut
    ∷ push_entry first_entry
    ∷ pop_many (pos 5)
    ∷ pop_one
    ∷ []

run_test : (run calls (new_ring_buffer (pos 2) (negsuc 0))).0 ≡ (
    taken true
    ∷ taken true
    ∷ taken true
    ∷ popped (some second_entry) false
    ∷ shut_down
    ∷ taken false
    ∷ batch (some third_entry ∷ [])
    ∷ popped none true
    ∷ [])
unfolding run new_ring_buffer push try_pop pop_batch append_entry evict over_cap entry_cap byte_cap
    remove_head close pop_loop
run_test = refl

run_refines_example :
    let (replies, r) = run calls (new_ring_buffer (pos 2) (pos 0)) in
    let (replies', q) = Queue.run calls (Queue.new_queue (pos 2) (pos 0)) in
    (replies ≡ replies') × (len r ≡ length q.items) × (r.drops ≡ q.drops)
run_refines_example = run_refines (pos 2) (pos 0) calls

run_caps_example :
    let (replies, r) = run calls (new_ring_buffer (pos 2) (pos 100)) in
    (r.size ≤ entry_cap (pos 2))
    × ((byte_cap (pos 100) ≡ 0) ⊎ (r.bytes ≤ byte_cap (pos 100)) ⊎ (r.size ≤ 1))
run_caps_example = run_caps (pos 2) (pos 100) calls

run_balance_example :
    let (replies, r) = run calls (new_ring_buffer (pos 2) (pos 100)) in
    all_entered replies ≡ r.size + r.drops + all_left replies
run_balance_example = run_balance (pos 2) (pos 100) calls

-- A ring of two entries with the queue of the same calls, and a batcher of batches of one on it.
abbrev two_queue : Queue
two_queue = (Queue.push second_entry (Queue.push first_entry (Queue.new_queue (pos 4) (pos 0))).1).1

abbrev two_ring : RingBuffer
two_ring = (push second_entry (push first_entry (new_ring_buffer (pos 4) (pos 0))).1).1

abbrev two_pending : Batcher
two_pending = new_batcher two_ring (pos 1) true

two_ring-Refines : Refines two_ring two_queue
two_ring-Refines =
    (push-Refines second_entry
      (push-Refines first_entry (new_ring_buffer-Refines (pos 4) (pos 0))).1).1

two_pending-IsReady : IsReady two_pending two_queue.items
unfolding new_batcher size_of_config
two_pending-IsReady = record { holds = two_ring-Refines.holds; room = omega arith; sizes = tt }

shutdown_flushes_iff_example :
    (concat (turn ring_closed two_pending).flushed ≡ history two_pending two_queue.items)
    ↔ (length two_queue.items ≤ two_pending.batch_size - length two_pending.pending)
unfolding new_batcher
shutdown_flushes_iff_example =
    shutdown_flushes_iff two_pending two_queue.items refl two_pending-IsReady

notified_leaves_rest_example :
    let r = (ticks 3 (turn notified two_pending)).ring in
    Holds r (undrained two_pending two_queue.items)
    × (r.signalled ≡ false)
    × (r.size ≡ length two_queue.items - (two_pending.batch_size - length two_pending.pending))
unfolding new_batcher
notified_leaves_rest_example =
    notified_leaves_rest 3 two_pending two_queue.items refl two_pending-IsReady

-- Of two entries a shutdown with batches of one flushes the first only.
shutdown_test : (turn ring_closed two_pending).flushed ≡ (some first_entry ∷ []) ∷ []
unfolding turn new_batcher new_ring_buffer push flush drain pop_batch size_of_config pop_loop
    append_entry evict over_cap entry_cap byte_cap
shutdown_test = refl

-- A limiter of one line a second and bursts of two.
abbrev slow : RateLimiter
slow = new_rate_limiter (pos 1) (pos 2)

abbrev lines : List (Bytes × Time)
lines =
    (bytes "a", pos 0)
    ∷ (bytes "b", pos 1)
    ∷ (bytes "a", pos 2)
    ∷ (bytes "a", pos 3)
    ∷ (bytes "a", pos 1000000002)
    ∷ []

-- An arithmetic that gives one unit too many for every sum.
abbrev rounding_up : Float64
rounding_up = record { grain = 1; topped_up = λ tokens ns rate. tokens + ns * rate + 1 }

rounding_up-Rounds : Rounds rounding_up slow.rate slow.burst 1
unfolding new_rate_limiter or_default
rounding_up-Rounds tokens ns h = omega arith

count_allowed_test : count_allowed rounding_up (bytes "a") lines slow ≡ 3
unfolding allow new_rate_limiter equal take_token refill bucket_of find_bucket or_default put_bucket
count_allowed_test = refl

rate_bound_example :
    count_allowed rounding_up (bytes "a") lines slow * token rounding_up
    ≤ slow.burst * token rounding_up
      + elapsed (pos 0) (pos 1000000002) * (slow.rate * rounding_up.grain)
      + length lines * 1
unfolding new_rate_limiter find_bucket or_default
rate_bound_example =
    rate_bound rounding_up (bytes "a") (pos 0) (pos 1000000002) 1 lines slow rounding_up-Rounds refl
      (omega arith)

-- A run with a push before it, a push while it runs, and the close of the ring.
abbrev moments : List Moment
moments = pushing second_entry ∷ receiving notified ∷ closing ∷ receiving ring_closed ∷ []

life-Accounts_example :
    let (taken_entries, b) =
      life
        (first_entry ∷ [])
        moments
        (new_batcher (new_ring_buffer (pos 4) (pos 0)) (pos 1) true) in
    Accounts taken_entries b
life-Accounts_example = life-Accounts (pos 4) (pos 0) (pos 1) (first_entry ∷ []) moments

-- A codec that knows one entry.
abbrev one_line : Codec
one_line = record {
  encode = λ e. some (b'1' ∷ []);
  gzip = λ text. some (b'z' ∷ text);
  gunzip = λ payload. elim payload [ [] ↦ none | c ∷ cs ↦ some cs ];
  decode = λ text. elim text [ [] ↦ no_more | c ∷ cs ↦ decoded first_entry cs ];
}

one_line-Inverse : Serialize.Inverse one_line
one_line-Inverse = record {
  gunzips = λ {text} {payload} e. let same : b'z' ∷ text ≡ payload = cc in rw (sym same) refl;
  ends = refl;
}

first_entry-Rereads : Serialize.Rereads one_line first_entry
first_entry-Rereads line e =
    let same : b'1' ∷ [] ≡ line = cc in rw (sym same) (omega arith, λ rest. refl)

decode_batch-serialize_batch_example :
    decode_batch one_line (bytes "z11") ≡ some (first_entry ∷ first_entry ∷ [])
unfolding serialize_batch encode_lines write_line compressed
decode_batch-serialize_batch_example =
    decode_batch-serialize_batch one_line (first_entry ∷ first_entry ∷ []) (bytes "z11")
      one_line-Inverse (first_entry-Rereads, (first_entry-Rereads, tt)) refl

-- ===== src/Pipeline/Ring.antt =====
-- internal/pipeline/ring.go: `RingBuffer`, a bounded FIFO that drops its oldest entries.
-- A method runs under the mutex, so it is one function from the ring to the ring.
pub mod Invariant
pub mod Refine
pub mod Run
use blackboxd.Prelude.{
  ℕ, zero, suc, ◌+◌, ◌-◌, ◌%◌, Bool, true, false, not, ◌&&◌, ◌||◌, List, [], ◌∷◌, ◌++◌, Option,
  none, some, ltb, leb, ◌==◌, if◌then◌else◌, length, get_or, set, replicate,
}
use blackboxd.Prelude.Int.{ℤ, pos, negsuc}
use blackboxd.Bytes.{Bytes}
use blackboxd.Entry.{LogEntry}

-- A slot of `buf`: a pointer that may be nil.
abbrev pub Slot : Type 0
Slot = Option LogEntry

-- `RingBuffer`. `signalled` says that the channel `notify`, of capacity 1, holds a value. A byte cap
-- of 0 stands for every cap that `maxBytes > 0` switches off.
pub record RingBuffer : Type 0 where
  pub buf : List Slot
  pub head : ℕ
  pub size : ℕ
  pub bytes : ℕ
  pub max_entries : ℕ
  pub max_bytes : ℕ
  pub closed : Bool
  pub signalled : Bool
  pub drops : ℕ

-- The caps of a caller: an `int` that is not positive is a default, or no cap.
unfoldable pub entry_cap : ℤ → ℕ
entry_cap (pos zero) = 10000
entry_cap (pos (suc n)) = suc n
entry_cap (negsuc n) = 10000

unfoldable pub byte_cap : ℤ → ℕ
byte_cap (pos n) = n
byte_cap (negsuc n) = 0

-- `NewRingBuffer`.
unfoldable pub new_ring_buffer : ℤ → ℤ → RingBuffer
new_ring_buffer max_entries max_bytes = record {
  buf = replicate (entry_cap max_entries) none;
  head = 0;
  size = 0;
  bytes = 0;
  max_entries = entry_cap max_entries;
  max_bytes = byte_cap max_bytes;
  closed = false;
  signalled = false;
  drops = 0;
}

-- The fields' part of an entry's cost.
unfoldable pub fields_bytes : List (Bytes × Bytes) → ℕ
fields_bytes [] = 0
fields_bytes ((k, v) ∷ m) = length k + length v + 8 + fields_bytes m

-- `approxBytes`.
unfoldable pub approx_bytes : LogEntry → ℕ
approx_bytes e =
    64
    + length e.message
    + length e.hostname
    + length e.process
    + length e.source
    + fields_bytes e.fields

unfoldable pub slot_bytes : Slot → ℕ
slot_bytes none = 0
slot_bytes (some e) = approx_bytes e

-- The five statements that take the oldest entry out; every remover of the code has them.
unfoldable pub remove_head : RingBuffer → RingBuffer
remove_head r = record r {
  buf = set r.buf r.head none;
  head = (r.head + 1) % r.max_entries;
  size = r.size - 1;
  bytes = r.bytes - slot_bytes (get_or r.buf r.head none);
}

-- The loop's condition in `Push`.
unfoldable pub over_cap : RingBuffer → ℕ → Bool
over_cap r cost =
    ltb r.max_entries (r.size + 1)
    || (ltb 0 r.max_bytes && ltb r.max_bytes (r.bytes + cost) && ltb 0 r.size)

-- The loop of `Push`. Each round takes an entry out, so the size is fuel enough.
unfoldable pub evict : ℕ → ℕ → RingBuffer → RingBuffer
evict zero cost r = r
evict (suc n) cost r =
    let rest = evict n cost (record (remove_head r) { drops = r.drops + 1 }) in
    if over_cap r cost then rest else r

-- The write at the tail.
unfoldable pub append_entry : LogEntry → RingBuffer → RingBuffer
append_entry e r = record r {
  buf = set r.buf ((r.head + r.size) % r.max_entries) (some e);
  size = r.size + 1;
  bytes = r.bytes + approx_bytes e;
  signalled = true;
}

-- `Push` of an entry that is not nil.
unfoldable pub push : LogEntry → RingBuffer → Bool × RingBuffer
push e r =
    if r.closed then (false, r) else (true, append_entry e (evict (r.size + 1) (approx_bytes e) r))

-- `Push`; a nil entry is ignored, also by a closed ring.
unfoldable pub push_slot : Slot → RingBuffer → Bool × RingBuffer
push_slot none r = (true, r)
push_slot (some e) r = push e r

-- `TryPop`: the entry, and whether the ring is drained.
unfoldable pub try_pop : RingBuffer → Slot × Bool × RingBuffer
try_pop r =
    if r.size == 0 then (none, r.closed, r) else (get_or r.buf r.head none, false, remove_head r)

-- The loop of `PopBatch` with `out`; the rounds are `maxN` at most.
unfoldable pub pop_loop : ℕ → List Slot → RingBuffer → List Slot × RingBuffer
pop_loop zero out r = (out, r)
pop_loop (suc n) out r =
    let rest = pop_loop n (out ++ (get_or r.buf r.head none ∷ [])) (remove_head r) in
    if ltb 0 r.size then rest else (out, r)

-- `PopBatch`.
unfoldable pub pop_batch : ℤ → RingBuffer → List Slot × RingBuffer
pop_batch (pos n) r = pop_loop n [] r
pop_batch (negsuc n) r = ([], r)

-- `Close`.
unfoldable pub close : RingBuffer → RingBuffer
close r = if r.closed then r else record r { closed = true }

-- What a goroutine that waits in `PopWait` is woken by.
pub data Wake : Type 0 where
  done closed_signal notified : Wake

-- The first half of a turn of the loop of `PopWait`: it returns what `TryPop` found, or nil where
-- the ring is drained; `none` goes on to the `select`.
unfoldable pub pop_wait_try : RingBuffer → Option Slot × RingBuffer
unfolding try_pop
pop_wait_try r =
    let (e, drained, r') = try_pop r in
    elim e [ some x ↦ (some (some x), r') | none ↦ if drained then (some none, r') else (none, r') ]

-- The `select` behind it, with what it receives; `none` is a new turn. The ring may have changed
-- since the first half. A receive from `notify` empties the channel.
unfoldable pub pop_wait_select : Wake → RingBuffer → Option Slot × RingBuffer
unfolding try_pop
pop_wait_select done r = (some none, r)
pop_wait_select closed_signal r = let (e, drained, r') = try_pop r in (some e, r')
pop_wait_select notified r = (none, record r { signalled = false })

-- `Len`.
unfoldable pub len : RingBuffer → ℕ
len r = r.size

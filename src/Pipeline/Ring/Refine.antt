-- ===== src/Pipeline/Ring/Refine.antt =====
-- The operations of the ring against those of the queue.
use blackboxd.Prelude.{
  ℕ, zero, suc, ◌+◌, ◌<◌, ◌≡◌, refl, ap, ◌∙◌, sym, subst, inl, inr, Bool, true, false, List, [],
  ◌∷◌, ◌++◌, Option, some, arith, ltb, ◌==◌, if◌then◌else◌, Bool-cases, length, take, drop, map,
  append_assoc, append-nil,
}
use blackboxd.Prelude.Int.{ℤ, pos, negsuc}
use blackboxd.Entry.{LogEntry}
use blackboxd.Pipeline.Ring.{
  RingBuffer, Slot, approx_bytes, remove_head, over_cap, evict, append_entry, push, try_pop,
  pop_loop, pop_batch, close, new_ring_buffer,
}
use blackboxd.Pipeline.Ring.Invariant.{
  Holds, head-Holds, remove_head-Holds, append_entry-Holds, new_ring_buffer-Holds,
}
use blackboxd.Pipeline.Queue
use blackboxd.Pipeline.Queue.{Queue, total, too_many, excess}
use blackboxd.Pipeline.Queue.Caps.{drop-excess_fits, excess-full, excess-fits}

-- The ring stands for the queue.
pub record Refines (r : RingBuffer) (q : Queue) : Type 0 where
  pub holds : Holds r q.items
  pub same_entries : r.max_entries ≡ q.max_entries
  pub same_bytes : r.max_bytes ≡ q.max_bytes
  pub same_closed : r.closed ≡ q.closed
  pub same_drops : r.drops ≡ q.drops

over_cap-too_many :
    {r : RingBuffer} {es : List LogEntry} (cost : ℕ)
    → Holds r es
    → over_cap r cost ≡ too_many r.max_entries r.max_bytes cost es
unfolding over_cap
over_cap-too_many cost h = rw (h.size_is, h.bytes_is)

-- The eviction loop takes out just the excess, and counts it.
record Evicted (r : RingBuffer) (es : List LogEntry) (cost : ℕ) (r' : RingBuffer) : Type 0 where
  holds : Holds r' (drop (excess r.max_entries r.max_bytes cost es) es)
  counted : r'.drops ≡ r.drops + excess r.max_entries r.max_bytes cost es
  same_entries : r'.max_entries ≡ r.max_entries
  same_bytes : r'.max_bytes ≡ r.max_bytes
  same_closed : r'.closed ≡ r.closed

Evicted-none :
    {r : RingBuffer} {es : List LogEntry} (cost : ℕ)
    → Holds r es
    → excess r.max_entries r.max_bytes cost es ≡ 0
    → Evicted r es cost r
Evicted-none {r} {es} cost h e = record {
  holds = rw e h;
  counted = omega (arith, e);
  same_entries = refl;
  same_bytes = refl;
  same_closed = refl;
}

Holds-drops :
    {r : RingBuffer} {es : List LogEntry} (d : ℕ) → Holds r es → Holds (record r { drops = d }) es
Holds-drops d h = record {
  storage = h.storage;
  head_in = h.head_in;
  size_is = h.size_is;
  size_in = h.size_in;
  bytes_is = h.bytes_is;
  slots = h.slots;
}

Evicted-cons :
    {r : RingBuffer} {e : LogEntry} {es : List LogEntry} {r' : RingBuffer} (cost : ℕ)
    → Holds r (e ∷ es)
    → too_many r.max_entries r.max_bytes cost (e ∷ es) ≡ true
    → Evicted (record (remove_head r) { drops = r.drops + 1 }) es cost r'
    → Evicted r (e ∷ es) cost r'
unfolding remove_head
Evicted-cons {r} {e} {es} cost h full v =
    let step : excess r.max_entries r.max_bytes cost (e ∷ es)
        ≡ suc (excess r.max_entries r.max_bytes cost es) =
      excess-full r.max_entries r.max_bytes cost e es full in
    record {
      holds = rw step v.holds;
      counted = omega (arith, v.counted, step);
      same_entries = v.same_entries;
      same_bytes = v.same_bytes;
      same_closed = v.same_closed;
    }

evict-Evicted :
    (es : List LogEntry) (n cost : ℕ) {r : RingBuffer}
    → length es < n
    → Holds r es
    → Evicted r es cost (evict n cost r)
unfolding evict
evict-Evicted es zero cost lt h = absurd (omega arith)
evict-Evicted [] (suc n) cost {r} lt h =
    let fits : over_cap r cost ≡ false = over_cap-too_many cost h ∙ ground (arith, h.head_in) in
    rw fits (Evicted-none cost h (excess-fits _ _ cost [] (sym (over_cap-too_many cost h) ∙ fits)))
evict-Evicted (e ∷ es) (suc n) cost {r} lt h = elim (Bool-cases (over_cap r cost)) [
  | inl full ↦ rw full (
      Evicted-cons cost h (sym (over_cap-too_many cost h) ∙ full)
        (evict-Evicted es n cost (omega arith) (Holds-drops (r.drops + 1) (remove_head-Holds h))))
  | inr fits ↦
      rw fits (
        Evicted-none cost h (excess-fits _ _ cost (e ∷ es) (sym (over_cap-too_many cost h) ∙ fits)))
]

too_many-lt :
    (max_entries max_bytes cost : ℕ) (es : List LogEntry)
    → too_many max_entries max_bytes cost es ≡ false
    → length es < max_entries
too_many-lt max_entries max_bytes cost es h = ground arith

-- `NewRingBuffer` gives an empty queue.
pub new_ring_buffer-Refines :
    (max_entries max_bytes : ℤ)
    → Refines (new_ring_buffer max_entries max_bytes) (Queue.new_queue max_entries max_bytes)
unfolding new_ring_buffer Queue.new_queue
new_ring_buffer-Refines n m = record {
  holds = new_ring_buffer-Holds n m;
  same_entries = refl;
  same_bytes = refl;
  same_closed = refl;
  same_drops = refl;
}

-- An open ring makes room and takes the entry, as the queue does.
admit-Refines :
    {r : RingBuffer} {q : Queue} (e : LogEntry)
    → Refines r q
    → Refines (append_entry e (evict (r.size + 1) (approx_bytes e) r)) (Queue.admit e q)
unfolding Queue.admit append_entry
admit-Refines {r} {q} e f =
    let v : Evicted r q.items (approx_bytes e) (evict (r.size + 1) (approx_bytes e) r) =
      evict-Evicted q.items (r.size + 1) (approx_bytes e) (omega (arith, f.holds.size_is))
        f.holds in
    let fits =
      drop-excess_fits r.max_entries r.max_bytes (approx_bytes e) q.items
        (omega (arith, f.holds.head_in)) in
    let room : length (drop (excess r.max_entries r.max_bytes (approx_bytes e) q.items) q.items)
        < r.max_entries =
      too_many-lt _ _ (approx_bytes e) _ fits in
    record {
      holds =
          rw (sym f.same_entries, sym f.same_bytes)
            (append_entry-Holds e v.holds (omega (arith, v.same_entries, room)));
      same_entries = v.same_entries ∙ f.same_entries;
      same_bytes = v.same_bytes ∙ f.same_bytes;
      same_closed = v.same_closed ∙ f.same_closed;
      same_drops =
          rw (sym f.same_entries, sym f.same_bytes) (omega (arith, v.counted, f.same_drops));
    }

-- `Push` returns what the queue returns, and leaves the ring standing for the queue that is left.
pub push-Refines :
    {r : RingBuffer} {q : Queue} (e : LogEntry)
    → Refines r q
    → ((push e r).0 ≡ (Queue.push e q).0) × Refines (push e r).1 (Queue.push e q).1
unfolding push Queue.push
push-Refines {r} {q} e f = elim (Bool-cases q.closed) [
  | inl shut ↦ simp (shut, f.same_closed) (refl, f)
  | inr opened ↦ simp (opened, f.same_closed) (refl, admit-Refines e f)
]

-- Without its oldest entry.
remove_head-Refines :
    {r : RingBuffer} {q : Queue} {e : LogEntry} {es : List LogEntry}
    → Refines r q
    → q.items ≡ e ∷ es
    → Refines (remove_head r) (record q { items = es })
unfolding remove_head
remove_head-Refines f eq = record {
  holds = remove_head-Holds (rw eq at f.holds);
  same_entries = f.same_entries;
  same_bytes = f.same_bytes;
  same_closed = f.same_closed;
  same_drops = f.same_drops;
}

-- What one `TryPop` returns and leaves.
abbrev Popped : Slot × Bool × RingBuffer → Option LogEntry × Bool × Queue → Type 0
Popped (x, drained, r) (y, drained', q) = (x ≡ y) × (drained ≡ drained') × Refines r q

try_pop-empty :
    {r : RingBuffer} {q : Queue}
    → Refines r q
    → q.items ≡ []
    → Popped (try_pop r) (Queue.pop_from [] q)
unfolding try_pop Queue.pop_from
try_pop-empty {r} f eq =
    let empty : (r.size == 0) ≡ true = ground (arith, f.holds.size_is, ap length eq) in
    rw empty (refl, f.same_closed, f)

try_pop-cons :
    {r : RingBuffer} {q : Queue} {e : LogEntry} {es : List LogEntry}
    → Refines r q
    → q.items ≡ e ∷ es
    → Popped (try_pop r) (Queue.pop_from (e ∷ es) q)
unfolding try_pop Queue.pop_from
try_pop-cons {r} f eq =
    let some_left : (r.size == 0) ≡ false = ground (arith, f.holds.size_is, ap length eq) in
    rw some_left (head-Holds (rw eq at f.holds), refl, remove_head-Refines f eq)

try_pop-Popped :
    {r : RingBuffer} {q : Queue} (es : List LogEntry)
    → Refines r q
    → q.items ≡ es
    → Popped (try_pop r) (Queue.pop_from es q)
try_pop-Popped [] f eq = try_pop-empty f eq
try_pop-Popped (e ∷ es) f eq = try_pop-cons f eq

-- `TryPop` returns the oldest entry, or nil with whether the ring is closed.
pub try_pop-Refines :
    {r : RingBuffer} {q : Queue}
    → Refines r q
    → ((try_pop r).0 ≡ (Queue.pop q).0)
      × ((try_pop r).1 ≡ (Queue.pop q).1)
      × Refines (try_pop r).2 (Queue.pop q).2
unfolding Queue.pop
try_pop-Refines {q = q} f = try_pop-Popped q.items f refl

pop_loop-Refines :
    (n : ℕ) (es : List LogEntry) (out : List Slot) {r : RingBuffer} {q : Queue}
    → Refines r q
    → q.items ≡ es
    → ((pop_loop n out r).0 ≡ out ++ map some (take n es))
      × Refines (pop_loop n out r).1 (record q { items = drop n es })
unfolding pop_loop
pop_loop-Refines zero es out {r} {q} f eq =
    (sym (append-nil out), subst (λ x. Refines r (record q { items = x })) eq f)
pop_loop-Refines (suc n) [] out {r} {q} f eq =
    let empty : ltb 0 r.size ≡ false = ground (arith, f.holds.size_is, ap length eq) in
    rw empty (sym (append-nil out), subst (λ x. Refines r (record q { items = x })) eq f)
pop_loop-Refines (suc n) (e ∷ es) out {r} {q} f eq =
    let some_left : ltb 0 r.size ≡ true = ground (arith, f.holds.size_is, ap length eq) in
    let first = head-Holds (rw eq at f.holds) in
    let (outs, left) =
      pop_loop-Refines n es (out ++ (some e ∷ [])) (remove_head-Refines f eq) refl in
    rw (some_left, first) (outs ∙ append_assoc out (some e ∷ []) (map some (take n es)), left)

-- `PopBatch` returns up to `maxN` oldest entries in order, and no slot that is nil.
pub pop_batch-Refines :
    (n : ℤ) {r : RingBuffer} {q : Queue}
    → Refines r q
    → ((pop_batch n r).0 ≡ map some (Queue.pop_batch n q).0)
      × Refines (pop_batch n r).1 (Queue.pop_batch n q).1
unfolding pop_batch Queue.pop_batch
pop_batch-Refines (pos n) {q = q} f = pop_loop-Refines n q.items [] f refl
pop_batch-Refines (negsuc n) f = (refl, f)

close-at :
    (b : Bool) {r : RingBuffer} {q : Queue}
    → Refines r q
    → r.closed ≡ b
    → Refines (if b then r else record r { closed = true }) (Queue.close q)
unfolding Queue.close
close-at true f shut = record {
  holds = f.holds;
  same_entries = f.same_entries;
  same_bytes = f.same_bytes;
  same_closed = shut;
  same_drops = f.same_drops;
}
close-at false f opened = record {
  holds = record {
    storage = f.holds.storage;
    head_in = f.holds.head_in;
    size_is = f.holds.size_is;
    size_in = f.holds.size_in;
    bytes_is = f.holds.bytes_is;
    slots = f.holds.slots;
  };
  same_entries = f.same_entries;
  same_bytes = f.same_bytes;
  same_closed = refl;
  same_drops = f.same_drops;
}

-- `Close` leaves the entries readable, and closes for good.
pub close-Refines : {r : RingBuffer} {q : Queue} → Refines r q → Refines (close r) (Queue.close q)
unfolding close
close-Refines {r} f = close-at r.closed f refl

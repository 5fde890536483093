-- ===== src/Pipeline/Batcher/Order.antt =====
-- What the batcher does with the entries: order, batch sizes, and what its turns leave in the ring.
use blackboxd.Prelude.{
  length-map, ℕ, ◌-◌, ◌≤◌, ◌<◌, ◌≡◌, refl, ap, ◌∙◌, sym, inl, inr, true, false, List, [], ◌∷◌, ◌++◌,
  some, leb, ◌==◌, Bool-cases, length, length-append, length-take, take, drop, take-append-drop,
  map, append_assoc, append-nil, All, arith,
}
use mathlib.Core.List.{map-append}
use blackboxd.Prelude.Int.{pos, sub_ℕ}
use blackboxd.Entry.{LogEntry}
use blackboxd.Pipeline.Ring.{RingBuffer, Slot, pop_batch}
use blackboxd.Pipeline.Ring.Invariant.{Holds}
use blackboxd.Pipeline.Ring.Refine.{Refines, pop_batch-Refines}
use blackboxd.Pipeline.Queue
use blackboxd.Pipeline.Queue.{Queue}
use blackboxd.Pipeline.Batcher.{
  Batcher, flush, drain, flush_if_full, Event, ctx_done, ring_closed, interval, notified, turn,
}

abbrev pub concat : List (List Slot) → List Slot
concat [] = []
concat (b ∷ bs) = b ++ concat bs

concat-append : (xs : List (List Slot)) (b : List Slot) → concat (xs ++ (b ∷ [])) ≡ concat xs ++ b
concat-append [] b = append-nil b
concat-append (x ∷ xs) b =
    ap (λ l. x ++ l) (concat-append xs b) ∙ sym (append_assoc x (concat xs) b)

-- A batcher between two turns: its ring holds `es`, its pending batch is not full, and every batch
-- that it flushed has between 1 and `batch_size` entries.
pub record IsReady (b : Batcher) (es : List LogEntry) : Type 0 where
  pub holds : Holds b.ring es
  pub room : length b.pending < b.batch_size
  pub sizes : All (λ batch. (1 ≤ length batch) × (length batch ≤ b.batch_size)) b.flushed

-- All entries that the batcher has seen or can still see, oldest first.
abbrev pub history : Batcher → List LogEntry → List Slot
history b es = concat b.flushed ++ (b.pending ++ map some es)

abbrev pub queue_of : RingBuffer → List LogEntry → Queue
queue_of r es = record {
  items = es;
  max_entries = r.max_entries;
  max_bytes = r.max_bytes;
  closed = r.closed;
  drops = r.drops;
}

pub queue_of-Refines :
    {r : RingBuffer} {es : List LogEntry} → Holds r es → Refines r (queue_of r es)
queue_of-Refines h = record {
  holds = h;
  same_entries = refl;
  same_bytes = refl;
  same_closed = refl;
  same_drops = refl;
}

-- What `PopBatch` of a natural number of entries returns and leaves.
pub pop_batch-Holds :
    {r : RingBuffer} {es : List LogEntry} (n : ℕ)
    → Holds r es
    → ((pop_batch (pos n) r).0 ≡ map some (take n es)) × Holds (pop_batch (pos n) r).1 (drop n es)
unfolding Queue.pop_batch
pop_batch-Holds n h =
    let (out, f) = pop_batch-Refines (pos n) (queue_of-Refines h) in (out, f.holds)

sub_ℕ-pos : (a b : ℕ) → b ≤ a → sub_ℕ a b ≡ pos (a - b)
sub_ℕ-pos a b h = ground arith

-- `drain` moves as many entries as fit, in order.
pub drain_lem :
    (b : Batcher) {es : List LogEntry}
    → Holds b.ring es
    → length b.pending < b.batch_size
    → let k = b.batch_size - length b.pending in
      ((drain b).pending ≡ b.pending ++ map some (take k es)) × Holds (drain b).ring (drop k es)
unfolding drain
drain_lem b h room =
    let (out, left) = pop_batch-Holds (b.batch_size - length b.pending) h in
    rw (sub_ℕ-pos b.batch_size (length b.pending) (omega arith))
      (ap (λ l. b.pending ++ l) out, left)

-- The same before a flush, where the pending batch may be full.
record IsSound (b : Batcher) (es : List LogEntry) : Type 0 where
  holds : Holds b.ring es
  some_room : 0 < b.batch_size
  fits : length b.pending ≤ b.batch_size
  sizes : All (λ batch. (1 ≤ length batch) × (length batch ≤ b.batch_size)) b.flushed

All-concat {ℓ κ} :
    {A : Type ℓ} (P : A → Type κ) (xs : List A) (x : A) → All P xs → P x → All P (xs ++ (x ∷ []))
All-concat P [] x h p = (p, tt)
All-concat P (y ∷ xs) x h p = (h.0, All-concat P xs x h.1 p)

nil_of_length : (xs : List Slot) → (length xs == 0) ≡ true → xs ≡ []
nil_of_length [] h = refl
nil_of_length (x ∷ xs) h = absurd (ground arith)

-- A flush makes the batcher ready, and keeps the history.
flush-IsReady :
    (b : Batcher) {es : List LogEntry}
    → b.has_flush ≡ true
    → IsSound b es
    → IsReady (flush b) es × (history (flush b) es ≡ history b es)
unfolding flush
flush-IsReady b {es} cb s = elim (Bool-cases (length b.pending == 0)) [
  | inl empty ↦
      rw empty
        (record { holds = s.holds; room = ground (arith, s.some_room); sizes = s.sizes }, refl)
  | inr full ↦
      simp (full, cb)
        (
          record {
            holds = s.holds;
            room = s.some_room;
            sizes = All-concat _ b.flushed b.pending s.sizes (ground arith, s.fits);
          },
          rw concat-append (append_assoc (concat b.flushed) b.pending (map some es)),
        )
]

flush_if_full-IsReady :
    (b : Batcher) {es : List LogEntry}
    → b.has_flush ≡ true
    → IsSound b es
    → IsReady (flush_if_full b) es × (history (flush_if_full b) es ≡ history b es)
unfolding flush_if_full
flush_if_full-IsReady b cb s = elim (Bool-cases (leb b.batch_size (length b.pending))) [
  | inl full ↦ rw full (flush-IsReady b cb s)
  | inr part ↦ rw part (record { holds = s.holds; room = ground arith; sizes = s.sizes }, refl)
]

-- What `drain` leaves in the ring.
abbrev pub undrained : Batcher → List LogEntry → List LogEntry
undrained b es = drop (b.batch_size - length b.pending) es

-- `drain` changes nothing else.
record SameRest (b b' : Batcher) : Type 0 where
  same_size : b'.batch_size ≡ b.batch_size
  same_flush : b'.has_flush ≡ b.has_flush
  same_flushed : b'.flushed ≡ b.flushed

drain-SameRest : (b : Batcher) → SameRest b (drain b)
unfolding drain
drain-SameRest b = record { same_size = refl; same_flush = refl; same_flushed = refl }

drain-IsSound :
    (b : Batcher) {es : List LogEntry}
    → IsReady b es
    → IsSound (drain b) (undrained b es) × (history (drain b) (undrained b es) ≡ history b es)
drain-IsSound b {es} h =
    let k = b.batch_size - length b.pending in
    let (pending, left) = drain_lem b h.holds h.room in
    let same = drain-SameRest b in
    let split : map some (take k es) ++ map some (drop k es) ≡ map some es =
      sym (map-append some (take k es) (drop k es)) ∙ ap (map some) (take-append-drop k es) in
    (
      record {
        holds = left;
        some_room = omega (arith, same.same_size);
        fits = omega (
          arith,
          same.same_size,
          ap length pending,
          length-append b.pending (map some (take k es)),
          length-map some (take k es),
          length-take k es,
        );
        sizes = rw (same.same_size, same.same_flushed) h.sizes;
      },
      rw (same.same_flushed, pending)
          (ap (λ l. concat b.flushed ++ l)
            (append_assoc b.pending (map some (take k es)) (map some (drop k es))
              ∙ ap (λ l. b.pending ++ l) split)),
    )

-- The entries that a turn leaves in the ring.
abbrev pub remaining : Event → Batcher → List LogEntry → List LogEntry
remaining interval b es = es
remaining _ b es = undrained b es

pub drain_then :
    (b : Batcher) {es : List LogEntry}
    → b.has_flush ≡ true
    → IsReady b es
    → (IsReady (flush (drain b)) (undrained b es)
        × (history (flush (drain b)) (undrained b es) ≡ history b es))
      × (IsReady (flush_if_full (drain b)) (undrained b es)
          × (history (flush_if_full (drain b)) (undrained b es) ≡ history b es))
drain_then b cb h =
    let (sound, kept) = drain-IsSound b h in
    let cb' = (drain-SameRest b).same_flush ∙ cb in
    let (ready, same) = flush-IsReady (drain b) cb' sound in
    let (ready', same') = flush_if_full-IsReady (drain b) cb' sound in
    ((ready, same ∙ kept), (ready', same' ∙ kept))

-- Hearing of a push changes no entry.
heard : Batcher → Batcher
heard b = record b { ring = record (b.ring) { signalled = false } }

heard-IsReady : (b : Batcher) {es : List LogEntry} → IsReady b es → IsReady (heard b) es
unfolding heard
heard-IsReady b h = record {
  holds = record {
    storage = h.holds.storage;
    head_in = h.holds.head_in;
    size_is = h.holds.size_is;
    size_in = h.holds.size_in;
    bytes_is = h.holds.bytes_is;
    slots = h.holds.slots;
  };
  room = h.room;
  sizes = h.sizes;
}

-- For a batcher with a flush callback, whose ring holds a list of entries, whose pending batch is
-- not full and whose flushed batches have between one and batch_size entries: every turn of its
-- loop leaves such a batcher, and the flushed batches, the pending batch and the ring hold the
-- same entries in the same order as before.
pub turn_keeps_history :
    (ev : Event) (b : Batcher) (es : List LogEntry)
    → b.has_flush ≡ true
    → IsReady b es
    → IsReady (turn ev b) (remaining ev b es)
      × (history (turn ev b) (remaining ev b es) ≡ history b es)
unfolding turn heard
turn_keeps_history ctx_done b es cb h = (drain_then b cb h).0
turn_keeps_history ring_closed b es cb h = (drain_then b cb h).0
turn_keeps_history interval b es cb h = flush-IsReady b cb (record {
  holds = h.holds;
  some_room = omega (arith, h.room);
  fits = omega (arith, h.room);
  sizes = h.sizes;
})
turn_keeps_history notified b es cb h = (drain_then (heard b) cb (heard-IsReady b h)).1

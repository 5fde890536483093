-- ===== src/Pipeline/Queue.antt =====
-- What a ring buffer promises: a queue of entries within two caps, that makes room for a new entry
-- at the cost of its oldest ones, and counts them.
pub mod Caps
pub mod Accounts
use blackboxd.Prelude.{
  ℕ, zero, suc, ◌+◌, ◌-◌, Bool, true, false, ◌&&◌, ◌||◌, List, [], ◌∷◌, ◌++◌, Option, none, some,
  ltb, ◌==◌, if◌then◌else◌, length, take, drop, map,
}
use blackboxd.Prelude.Int.{ℤ, pos, negsuc}
use blackboxd.Entry.{LogEntry}
use blackboxd.Pipeline.Ring.{approx_bytes, entry_cap, byte_cap}

pub record Queue : Type 0 where
  pub items : List LogEntry
  pub max_entries : ℕ
  pub max_bytes : ℕ
  pub closed : Bool
  pub drops : ℕ

abbrev pub total : List LogEntry → ℕ
total [] = 0
total (e ∷ es) = approx_bytes e + total es

unfoldable pub new_queue : ℤ → ℤ → Queue
new_queue max_entries max_bytes = record {
  items = [];
  max_entries = entry_cap max_entries;
  max_bytes = byte_cap max_bytes;
  closed = false;
  drops = 0;
}

-- One more entry of this cost does not fit beside these. A byte cap does not keep an entry out of
-- an empty queue.
abbrev pub too_many : ℕ → ℕ → ℕ → List LogEntry → Bool
too_many max_entries max_bytes cost es =
    ltb max_entries (length es + 1)
    || (ltb 0 max_bytes && ltb max_bytes (total es + cost) && ltb 0 (length es))

-- The number of oldest entries that have to go.
unfoldable pub excess : ℕ → ℕ → ℕ → List LogEntry → ℕ
excess max_entries max_bytes cost [] = 0
excess max_entries max_bytes cost (e ∷ es) =
    if too_many max_entries max_bytes cost (e ∷ es)
    then suc (excess max_entries max_bytes cost es)
    else 0

-- The oldest entries that have to go, go; they are counted.
unfoldable pub admit : LogEntry → Queue → Queue
admit e q =
    let gone = excess q.max_entries q.max_bytes (approx_bytes e) q.items in
    record q { items = drop gone q.items ++ (e ∷ []); drops = q.drops + gone }

unfoldable pub push : LogEntry → Queue → Bool × Queue
push e q = if q.closed then (false, q) else (true, admit e q)

unfoldable pub pop_from : List LogEntry → Queue → Option LogEntry × Bool × Queue
pop_from [] q = (none, q.closed, q)
pop_from (e ∷ es) q = (some e, false, record q { items = es })

-- The oldest entry; an empty queue tells whether it is closed.
unfoldable pub pop : Queue → Option LogEntry × Bool × Queue
pop q = pop_from q.items q

unfoldable pub pop_batch : ℤ → Queue → List LogEntry × Queue
pop_batch (pos n) q = (take n q.items, record q { items = drop n q.items })
pop_batch (negsuc n) q = ([], q)

unfoldable pub close : Queue → Queue
close q = record q { closed = true }

-- The calls of producers and of the consumer, in the order in which they take the mutex.
pub data Op : Type 0 where
  push_entry : LogEntry → Op
  pop_one : Op
  pop_many : ℤ → Op
  shut : Op

-- What a call returns.
pub data Reply : Type 0 where
  taken : Bool → Reply
  popped : Option LogEntry → Bool → Reply
  batch : List (Option LogEntry) → Reply
  shut_down : Reply

unfoldable pub step : Op → Queue → Reply × Queue
step (push_entry e) q = let (b, q') = push e q in (taken b, q')
step pop_one q = let (e, drained, q') = pop q in (popped e drained, q')
step (pop_many n) q = let (es, q') = pop_batch n q in (batch (map some es), q')
step shut q = (shut_down, close q)

unfoldable pub run : List Op → Queue → List Reply × Queue
run [] q = ([], q)
run (op ∷ ops) q =
    let (reply, q') = step op q in let (replies, q'') = run ops q' in (reply ∷ replies, q'')

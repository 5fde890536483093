-- ===== src/Pipeline/Queue/Accounts.antt =====
-- Invariants of the queue's histories: its caps, and an account of every entry.
use blackboxd.Prelude.{
  length-map, ℕ, zero, suc, ◌+◌, ◌≤◌, ◌<◌, ◌≡◌, refl, ap, ◌∙◌, subst, ◌⊎◌, inl, inr, true, List, [],
  ◌∷◌, some, length, length-append, length-take, length-drop, drop, take, arith, Bool-cases,
}
use blackboxd.Prelude.Int.{pos, negsuc}
use blackboxd.Entry.{LogEntry}
use blackboxd.Pipeline.Ring.{approx_bytes}
use blackboxd.Pipeline.Queue.{
  Queue, Op, push_entry, pop_one, pop_many, shut, Reply, taken, popped, batch, total, excess, admit,
  push, pop_from, pop, pop_batch, close, step, run,
}
use blackboxd.Pipeline.Queue.Caps.{total-concat, drop-excess_fits, excess-le}

-- The entries taken by a call, and those that it hands out.
abbrev pub entered : Reply → ℕ
entered (taken true) = 1
entered _ = 0

abbrev pub left : Reply → ℕ
left (popped (some e) b) = 1
left (batch es) = length es
left _ = 0

abbrev pub all_entered : List Reply → ℕ
all_entered [] = 0
all_entered (r ∷ rs) = entered r + all_entered rs

abbrev pub all_left : List Reply → ℕ
all_left [] = 0
all_left (r ∷ rs) = left r + all_left rs

admit-balance :
    (e : LogEntry) (q : Queue)
    → length (admit e q).items + (admit e q).drops ≡ length q.items + q.drops + 1
unfolding admit
admit-balance e q =
    let gone = excess q.max_entries q.max_bytes (approx_bytes e) q.items in
    omega (
      arith,
      length-append (drop gone q.items) (e ∷ []),
      length-drop gone q.items,
      excess-le q.max_entries q.max_bytes (approx_bytes e) q.items,
    )

-- One call: what was there and what enters is what leaves, is dropped, or stays.
Balanced : Queue → Reply × Queue → Type 0
Balanced q (reply, q') =
    length q.items + q.drops + entered reply ≡ length q'.items + q'.drops + left reply

push-Balanced : (e : LogEntry) (q : Queue) → Balanced q (step (push_entry e) q)
unfolding Balanced step push
push-Balanced e q = elim (Bool-cases q.closed) [
  | inl closed ↦ simp closed refl
  | inr opened ↦ simp opened (omega (arith, admit-balance e q))
]

pop_from-Balanced :
    (es : List LogEntry) (q : Queue)
    → q.items ≡ es
    → let (e, drained, q') = pop_from es q in
      length q.items + q.drops ≡ length q'.items + q'.drops + left (popped e drained)
unfolding pop_from
pop_from-Balanced [] q eq = omega arith
pop_from-Balanced (e ∷ es) q eq = omega (arith, ap length eq)

step-Balanced : (op : Op) (q : Queue) → Balanced q (step op q)
unfolding Balanced step pop pop_batch close
step-Balanced (push_entry e) q = push-Balanced e q
step-Balanced pop_one q = omega (arith, pop_from-Balanced q.items q refl)
step-Balanced (pop_many (pos n)) q =
    omega (arith, length-map some (take n q.items), length-take n q.items, length-drop n q.items)
step-Balanced (pop_many (negsuc n)) q = omega arith
step-Balanced shut q = omega arith

pub run-balance :
    (ops : List Op) (q : Queue)
    → let (replies, q') = run ops q in
      length q.items + q.drops + all_entered replies ≡ length q'.items + q'.drops + all_left replies
unfolding run Balanced
run-balance [] q = omega arith
run-balance (op ∷ ops) q = omega (arith, step-Balanced op q, run-balance ops (step op q).1)

-- The caps that hold between calls. A single entry may exceed the byte cap by itself.
pub record WithinCaps (q : Queue) : Type 0 where
  pub room : 0 < q.max_entries
  pub count : length q.items ≤ q.max_entries
  pub weight : (q.max_bytes ≡ 0) ⊎ (total q.items ≤ q.max_bytes) ⊎ (length q.items ≤ 1)

total-drop-le : (n : ℕ) (es : List LogEntry) → total (drop n es) ≤ total es
total-drop-le zero es = omega arith
total-drop-le (suc n) [] = omega arith
total-drop-le (suc n) (e ∷ es) = omega (arith, total-drop-le n es)

admit-WithinCaps : (e : LogEntry) {q : Queue} → WithinCaps q → WithinCaps (admit e q)
unfolding admit
admit-WithinCaps e {q} w =
    let gone = excess q.max_entries q.max_bytes (approx_bytes e) q.items in
    let kept = drop gone q.items in
    let fits = drop-excess_fits q.max_entries q.max_bytes (approx_bytes e) q.items w.room in
    record {
      room = w.room;
      count = ground (arith, length-append kept (e ∷ []));
      weight = ground (arith, length-append kept (e ∷ []), total-concat kept e);
    }

drop-WithinCaps :
    (n : ℕ) {q : Queue} → WithinCaps q → WithinCaps (record q { items = drop n q.items })
drop-WithinCaps n {q} w = record {
  room = w.room;
  count = omega (arith, w.count, length-drop n q.items);
  weight = omega (arith, w.weight, length-drop n q.items, total-drop-le n q.items);
}

pop_from-WithinCaps :
    (es : List LogEntry) {q : Queue} → q.items ≡ es → WithinCaps q → WithinCaps (pop_from es q).2
unfolding pop_from
pop_from-WithinCaps [] eq w = w
pop_from-WithinCaps (e ∷ es) {q} eq w =
    let same : drop 1 q.items ≡ es = rw eq in
    subst (λ l. WithinCaps (record q { items = l })) same (drop-WithinCaps 1 w)

step-WithinCaps : (op : Op) {q : Queue} → WithinCaps q → WithinCaps (step op q).1
unfolding step push pop pop_batch close
step-WithinCaps (push_entry e) {q} w = elim (Bool-cases q.closed) [
  | inl closed ↦ simp closed w
  | inr opened ↦ simp opened (admit-WithinCaps e w)
]
step-WithinCaps pop_one {q} w = pop_from-WithinCaps q.items refl w
step-WithinCaps (pop_many (pos n)) w = drop-WithinCaps n w
step-WithinCaps (pop_many (negsuc n)) w = w
step-WithinCaps shut w = record { room = w.room; count = w.count; weight = w.weight }

pub run-WithinCaps : (ops : List Op) {q : Queue} → WithinCaps q → WithinCaps (run ops q).1
unfolding run
run-WithinCaps [] w = w
run-WithinCaps (op ∷ ops) w = run-WithinCaps ops (step-WithinCaps op w)

-- No call changes the caps.
SameCaps : Queue → Queue → Type 0
SameCaps q q' = (q'.max_entries ≡ q.max_entries) × (q'.max_bytes ≡ q.max_bytes)

pop_from-SameCaps : (es : List LogEntry) (q : Queue) → SameCaps q (pop_from es q).2
unfolding SameCaps pop_from
pop_from-SameCaps [] q = (refl, refl)
pop_from-SameCaps (e ∷ es) q = (refl, refl)

step-SameCaps : (op : Op) (q : Queue) → SameCaps q (step op q).1
unfolding SameCaps step push pop pop_batch close admit
step-SameCaps (push_entry e) q = elim (Bool-cases q.closed) [
  | inl closed ↦ simp closed (refl, refl)
  | inr opened ↦ simp opened (refl, refl)
]
step-SameCaps pop_one q = pop_from-SameCaps q.items q
step-SameCaps (pop_many (pos n)) q = (refl, refl)
step-SameCaps (pop_many (negsuc n)) q = (refl, refl)
step-SameCaps shut q = (refl, refl)

pub run-SameCaps :
    (ops : List Op) (q : Queue)
    → ((run ops q).1.max_entries ≡ q.max_entries) × ((run ops q).1.max_bytes ≡ q.max_bytes)
unfolding run SameCaps
run-SameCaps [] q = (refl, refl)
run-SameCaps (op ∷ ops) q =
    let one = step-SameCaps op q in
    let more = run-SameCaps ops (step op q).1 in (more.0 ∙ one.0, more.1 ∙ one.1)

-- ===== src/Pipeline/Ring/Invariant.antt =====
-- The representation invariant of the ring, and the queue that a ring stands for.
use native.Mathlib.Nat.{mod-add-mod, mod-eq_of_lt, mod-eq-sub-mod}
use native.Mathlib.Decide.{dec_lt, ℕ_discrete}
use blackboxd.Prelude.{
  ℕ, zero, suc, ◌+◌, ◌-◌, ◌%◌, ◌≤◌, ◌<◌, ◌≡◌, ◌≢◌, refl, ap, ◌∙◌, sym, ◌⊎◌, inl, inr, List, [], ◌∷◌,
  ◌++◌, none, some, arith, length, length-append, get_or, get_elem?, set, get_or-set_self,
  get_or-set_ne, length-set, length-replicate, replicate,
}
use blackboxd.Prelude.Int.{ℤ, pos, negsuc}
use blackboxd.Entry.{LogEntry}
use blackboxd.Pipeline.Ring.{
  RingBuffer, Slot, slot_bytes, remove_head, append_entry, new_ring_buffer, entry_cap,
}
use blackboxd.Pipeline.Queue.{total}
use blackboxd.Pipeline.Queue.Caps.{total-concat}

-- The ring `r` holds the entries `es`, oldest first: the slots from the head on hold them, every
-- other slot is nil, and the counters are those of `es`.
pub record Holds (r : RingBuffer) (es : List LogEntry) : Type 0 where
  pub storage : length r.buf ≡ r.max_entries
  pub head_in : r.head < r.max_entries
  pub size_is : r.size ≡ length es
  pub size_in : length es ≤ r.max_entries
  pub bytes_is : r.bytes ≡ total es
  pub slots :
      (i : ℕ)
      → i < r.max_entries
      → get_or r.buf ((r.head + i) % r.max_entries) none ≡ get_elem? es i

pub entry_cap-pos : (n : ℤ) → 0 < entry_cap n
unfolding entry_cap
entry_cap-pos (pos zero) = omega arith
entry_cap-pos (pos (suc n)) = omega arith
entry_cap-pos (negsuc n) = omega arith

-- Going round at most once.
round : (c h i : ℕ) → h < c → i ≤ c → ((h + i) % c ≡ h + i) ⊎ ((h + i) % c + c ≡ h + i)
round c h i hh hi = elim (dec_lt (h + i) c) [
  | yes p ↦ inl (mod-eq_of_lt p)
  | no p ↦ inr (
      omega (
        arith,
        mod-eq-sub-mod {n = h + i} {m = c} (omega arith),
        mod-eq_of_lt {n = h + i - c} {m = c} (omega arith),
      ))
]

round_lt : (c h i : ℕ) → h < c → (h + i) % c < c
round_lt c h i hh = omega arith

round_ne : (c h i j : ℕ) → h < c → i < c → j < c → i ≢ j → (h + i) % c ≢ (h + j) % c
round_ne c h i j hh hi hj ne = elim (round c h i hh (omega arith)) [
  | inl a ↦ elim (round c h j hh (omega arith)) [ inl b ↦ omega arith | inr b ↦ omega arith ]
  | inr a ↦ elim (round c h j hh (omega arith)) [ inl b ↦ omega arith | inr b ↦ omega arith ]
]

round_suc : (c h i : ℕ) → ((h + 1) % c + i) % c ≡ (h + suc i) % c
round_suc c h i = rw mod-add-mod (ap (λ k. k % c) (omega arith))

module _ {ℓ} {A : Type ℓ} where
  pub get_elem?-none : (xs : List A) (i : ℕ) → length xs ≤ i → get_elem? xs i ≡ none
  get_elem?-none [] i h = refl
  get_elem?-none (x ∷ xs) zero h = absurd (omega arith)
  get_elem?-none (x ∷ xs) (suc i) h = get_elem?-none xs i (omega arith)

  get_elem?-concat_ne :
      (xs : List A) (x : A) (i : ℕ) → i ≢ length xs → get_elem? (xs ++ (x ∷ [])) i ≡ get_elem? xs i
  get_elem?-concat_ne [] x zero h = absurd (h refl)
  get_elem?-concat_ne [] x (suc i) h = refl
  get_elem?-concat_ne (y ∷ xs) x zero h = refl
  get_elem?-concat_ne (y ∷ xs) x (suc i) h = get_elem?-concat_ne xs x i (λ e. h (ap suc e))

  get_elem?-concat_last : (xs : List A) (x : A) → get_elem? (xs ++ (x ∷ [])) (length xs) ≡ some x
  get_elem?-concat_last [] x = refl
  get_elem?-concat_last (y ∷ xs) x = get_elem?-concat_last xs x

  get_or-replicate : (n i : ℕ) (a : A) → get_or (replicate n a) i a ≡ a
  get_or-replicate zero i a = refl
  get_or-replicate (suc n) zero a = refl
  get_or-replicate (suc n) (suc i) a = get_or-replicate n i a

-- The slots of a buffer of `c` slots hold `es` from the index `h` on, and nil behind them.
abbrev Slots : List Slot → ℕ → ℕ → List LogEntry → Type 0
Slots buf c h es = (i : ℕ) → i < c → get_or buf ((h + i) % c) none ≡ get_elem? es i

round_zero : (c h : ℕ) → h < c → (h + 0) % c ≡ h
round_zero c h hh = elim (round c h 0 hh (omega arith)) [
  | inl a ↦ omega arith
  | inr a ↦ omega (arith, round_lt c h 0 hh)
]

round_full : (c h : ℕ) → h < c → (h + c) % c ≡ h
round_full c h hh = elim (round c h c hh (omega arith)) [
  | inl a ↦ omega (arith, round_lt c h c hh)
  | inr a ↦ omega arith
]

-- Clearing the head's slot leaves the slots of the rest, from the next index on.
Slots-clear :
    (buf : List Slot) (c h : ℕ) (e : LogEntry) (es : List LogEntry)
    → length buf ≡ c
    → h < c
    → length es < c
    → Slots buf c h (e ∷ es)
    → Slots (set buf h none) c ((h + 1) % c) es
Slots-clear buf c h e es hl hh hs slots i lt = rw (round_suc c h i) (elim (dec_lt (suc i) c) [
  | yes p ↦
      get_or-set_ne buf none none (λ same.
        round_ne c h 0 (suc i) hh (omega arith) p (λ z. absurd (omega arith))
          (round_zero c h hh ∙ same))
      ∙ slots (suc i) p
  | no p ↦
      let full : suc i ≡ c = omega arith in
      rw (full, round_full c h hh)
        (get_or-set_self buf h none none (omega arith) ∙ sym (get_elem?-none es i (omega arith)))
])

-- Writing behind the last entry adds it.
Slots-write :
    (buf : List Slot) (c h : ℕ) (e : LogEntry) (es : List LogEntry)
    → length buf ≡ c
    → h < c
    → length es < c
    → Slots buf c h es
    → Slots (set buf ((h + length es) % c) (some e)) c h (es ++ (e ∷ []))
Slots-write buf c h e es hl hh hs slots i lt = elim (ℕ_discrete i (length es)) [
  | yes same ↦
      rw (same, get_elem?-concat_last es e)
        (get_or-set_self buf ((h + length es) % c) (some e) none
          (omega (arith, round_lt c h (length es) hh)))
  | no ne ↦
      get_or-set_ne buf (some e) none (round_ne c h (length es) i hh hs lt (λ z. ne (sym z)))
      ∙ slots i lt
      ∙ sym (get_elem?-concat_ne es e i ne)
]

-- The oldest entry stands at the head.
pub head-Holds :
    {r : RingBuffer} {e : LogEntry} {es : List LogEntry}
    → Holds r (e ∷ es)
    → get_or r.buf r.head none ≡ some e
head-Holds {r} {e} {es} h =
    rw (round_zero r.max_entries r.head h.head_in) at (h.slots 0 (omega (arith, h.head_in)))

-- Taking the head out leaves the other entries.
pub remove_head-Holds :
    {r : RingBuffer} {e : LogEntry} {es : List LogEntry}
    → Holds r (e ∷ es)
    → Holds (remove_head r) es
unfolding remove_head slot_bytes
remove_head-Holds {r} {e} {es} h = record {
  storage = length-set r.buf r.head none ∙ h.storage;
  head_in = omega (arith, h.head_in);
  size_is = omega (arith, h.size_is);
  size_in = omega (arith, h.size_in);
  bytes_is = rw (head-Holds h) (omega (arith, h.bytes_is));
  slots =
      Slots-clear r.buf r.max_entries r.head e es h.storage h.head_in (omega (arith, h.size_in))
        h.slots;
}

-- The write at the tail adds a newest entry, if there is room.
pub append_entry-Holds :
    {r : RingBuffer} {es : List LogEntry} (e : LogEntry)
    → Holds r es
    → length es < r.max_entries
    → Holds (append_entry e r) (es ++ (e ∷ []))
unfolding append_entry
append_entry-Holds {r} {es} e h room = record {
  storage = length-set r.buf ((r.head + r.size) % r.max_entries) (some e) ∙ h.storage;
  head_in = h.head_in;
  size_is = omega (arith, h.size_is, length-append es (e ∷ []));
  size_in = omega (arith, length-append es (e ∷ []));
  bytes_is = omega (arith, h.bytes_is, total-concat es e);
  slots =
      rw h.size_is (Slots-write r.buf r.max_entries r.head e es h.storage h.head_in room h.slots);
}

-- A new ring is empty.
pub new_ring_buffer-Holds :
    (max_entries max_bytes : ℤ) → Holds (new_ring_buffer max_entries max_bytes) []
unfolding new_ring_buffer
new_ring_buffer-Holds n m = record {
  storage = length-replicate (entry_cap n) none;
  head_in = entry_cap-pos n;
  size_is = refl;
  size_in = omega arith;
  bytes_is = refl;
  slots = λ i lt. get_or-replicate (entry_cap n) ((0 + i) % entry_cap n) none;
}

-- ===== src/Transport/Publisher/Runs.antt =====
-- internal/transport/spool.go: what a `SpooledPublisher` holds over its life.
use blackboxd.Prelude.{
  ℕ, ◌+◌, ◌≤◌, ◌<◌, ◌^◌, ◌≡◌, ◌≢◌, refl, ◌∙◌, ap, ◌⊎◌, inl, inr, List, [], ◌∷◌, ◌++◌, Option, none,
  some, Bool-cases, length, All, All-append, All-map, append-nil, append_assoc, arith,
}
use blackboxd.Bytes.{Bytes, bytes}
use blackboxd.Transport.Spool.{Spool, file, find_node, Weather, append}
use blackboxd.Transport.Spool.Names.{spool_name}
use blackboxd.Transport.Spool.Numbering.{spool_name_number, spool_name_time}
use blackboxd.Transport.Spool.Keeps.{append-counters, append_keeps_others, append_stores}
use blackboxd.Transport.Publisher.{Message, SpooledPublisher, publish, Replay, replay_file}
use blackboxd.Transport.Publisher.Events.{
  PublisherEvent, publishing, listing, replaying, Running, accepted, replay_next, step, run,
}
use blackboxd.Transport.Publisher.Counters.{seq_of, drops_of, replay_file-SameCounters}
use blackboxd.Transport.Publisher.Delivery.{
  Sent, Sent-append, Sent-last, replay_file-Safe, acknowledged, spooled, lost, publish-Outcome,
}

-- A payload is held: the broker has acknowledged it, or a batch of the spool holds it, under a number
-- that the spool has given out, or with a time before `t0`, as a batch of an earlier run has.
abbrev pub HeldBy : ℕ → List Message → Option Spool → Bytes → Type 0
HeldBy t0 sent o c =
    Sent c sent
    ⊎ ((s : Spool) × (now : ℕ) × (j : ℕ) × (o ≡ some s)
        × ((j ≤ s.seq) ⊎ (now < t0))
        × (find_node (spool_name now j) s.dir ≡ some (file c)))

abbrev pub Held : ℕ → SpooledPublisher → Bytes → Type 0
Held t0 p c = HeldBy t0 p.upstream.sent p.spool c

-- The clock of a publish is at `t0` or behind it, and fits in 64 bits.
abbrev pub FromTime : ℕ → PublisherEvent → Type 0
FromTime t0 (publishing w now m) = (t0 ≤ now) × (now < 2 ^ 64)
FromTime t0 listing = Unit
FromTime t0 (replaying r) = Unit

-- What one step does to the counters.
record Counts (o o' : Option Spool) : Type 0 where
  seq_le : seq_of o ≤ seq_of o'
  seq_next : seq_of o' ≤ seq_of o + 1
  drops_le : drops_of o ≤ drops_of o'

Counts-refl : (o : Option Spool) → Counts o o
Counts-refl o = record { seq_le = omega arith; seq_next = omega arith; drops_le = omega arith }

publish-Counts :
    (w : Weather) (now : ℕ) (m : Message) (p : SpooledPublisher)
    → Counts p.spool (publish w now m p).1.spool
publish-Counts w now m p = elim (publish-Outcome w now m p) [
  | acknowledged acked ok' sent kept ↦ rw kept (Counts-refl p.spool)
  | spooled s refused here ok' now_in sent ↦
      let (seq, drops) = append-counters w now m.payload s in
      rw (now_in, here)
        (record { seq_le = omega (arith, seq); seq_next = omega (arith, seq); drops_le = drops })
  | lost refused here ok' sent kept ↦ rw (kept, here) (Counts-refl none)
]

replay_next-Counts :
    (r : Replay) (p : SpooledPublisher) (ks : List Bytes)
    → Counts p.spool (replay_next r p ks).publisher.spool
unfolding replay_next
replay_next-Counts r p [] = Counts-refl p.spool
replay_next-Counts r p (k ∷ ks) =
    let (seq, drops) = replay_file-SameCounters r k p p.spool refl in
    record {
      seq_le = omega (arith, seq);
      seq_next = omega (arith, seq);
      drops_le = omega (arith, drops);
    }

step-Counts :
    (e : PublisherEvent) (t : Running) → Counts t.publisher.spool (step e t).1.publisher.spool
unfolding step
step-Counts (publishing w now m) t = publish-Counts w now m t.publisher
step-Counts listing t = Counts-refl t.publisher.spool
step-Counts (replaying r) t = replay_next-Counts r t.publisher t.pending

module _ (t0 : ℕ) where
  replay_file-Held :
      (r : Replay) (k : Bytes) (p : SpooledPublisher) (c : Bytes)
      → Held t0 p c
      → Held t0 (replay_file r k p p.spool).1 c
  replay_file-Held r k p c (inl sent) =
      elim (replay_file-Safe r k (spool_name 0 0) c p p.spool refl (inr sent)) [
        | inl (s, here, found) ↦ inr (s, 0, 0, here, inl (omega arith), found)
        | inr sent' ↦ inl sent'
      ]
  replay_file-Held r k p c (inr (s, now, j, here, known, found)) =
      elim (replay_file-Safe r k (spool_name now j) c p p.spool refl (inl (s, here, found))) [
        | inl (s', here', found') ↦
            let same : s'.seq ≡ s.seq =
              rw here at (rw here' at (replay_file-SameCounters r k p p.spool refl).0) in
            inr (s', now, j, here', rw same known, found')
        | inr sent ↦ inl sent
      ]

  replay_next-Held :
      (r : Replay) (p : SpooledPublisher) (ks : List Bytes) (c : Bytes)
      → Held t0 p c
      → Held t0 (replay_next r p ks).publisher c
  unfolding replay_next
  replay_next-Held r p [] c h = h
  replay_next-Held r p (k ∷ ks) c h = replay_file-Held r k p c h

  -- The name of a batch that is held is no name of the next one.
  names_differ :
      (before now j seq : ℕ) (x y : Bytes)
      → seq + 1 < 2 ^ 64
      → t0 ≤ now
      → now < 2 ^ 64
      → (j ≤ seq) ⊎ (before < t0)
      → spool_name before j ++ x ≢ spool_name now (seq + 1) ++ y
  names_differ before now j seq x y few from small (inl le) e =
      absurd (omega (arith, spool_name_number before now j (seq + 1) x y (omega arith) few e))
  names_differ before now j seq x y few from small (inr earlier) e =
      absurd (omega (arith, spool_name_time before now j (seq + 1) x y (omega arith) small e))

  append-HeldBy :
      (w : Weather) (now : ℕ) (payload c : Bytes) (s : Spool) (sent : List Message)
      → s.seq + 1 < 2 ^ 64
      → t0 ≤ now
      → now < 2 ^ 64
      → (append w now payload s).1.drops ≡ s.drops
      → HeldBy t0 sent (some s) c
      → HeldBy t0 sent (some (append w now payload s).1) c
  append-HeldBy w now payload c s sent few from small same (inl known) = inl known
  append-HeldBy w now payload c s sent few from small same
        (inr (s', before, j, here, known, found)) =
      let same_spool : s' ≡ s = cc in
      let known' : (j ≤ s.seq) ⊎ (before < t0) = rw same_spool at known in
      let found' : find_node (spool_name before j) s.dir ≡ some (file c) = rw same_spool at found in
      let other = λ (x y : Bytes). names_differ before now j s.seq x y few from small known' in
      let counted = (append-counters w now payload s).0 in
      inr (
        (append w now payload s).1,
        before,
        j,
        refl,
        elim known' [ inl le ↦ inl (omega (arith, counted)) | inr earlier ↦ inr earlier ],
        append_keeps_others w now payload s (spool_name before j) same
              (λ e. other [] [] (ap (λ n. n ++ []) e))
              (λ e. other [] (bytes ".tmp") (append-nil (spool_name before j) ∙ e))
            ∙ found',
      )

  publish-Held :
      (w : Weather) (now : ℕ) (m : Message) (p : SpooledPublisher) (c : Bytes)
      → seq_of p.spool + 1 < 2 ^ 64
      → t0 ≤ now
      → now < 2 ^ 64
      → drops_of (publish w now m p).1.spool ≡ drops_of p.spool
      → Held t0 p c
      → Held t0 (publish w now m p).1 c
  publish-Held w now m p c few from small same h = elim (publish-Outcome w now m p) [
    | acknowledged acked ok' sent kept ↦
        rw (sent, kept)
          (elim h [
            | inl known ↦ inl (Sent-append c p.upstream.sent (m ∷ []) known)
            | inr stored ↦ inr stored
          ])
    | spooled s refused here ok' now_in sent ↦
        rw (sent, now_in)
          (append-HeldBy w now m.payload c s p.upstream.sent (rw here at few) from small
            (rw (now_in, here) at same) (rw here at h))
    | lost refused here ok' sent kept ↦ rw (sent, kept) (rw here at h)
  ]

  -- A step that counts no drop keeps what is held.
  step-Held :
      (e : PublisherEvent) (t : Running) (c : Bytes)
      → seq_of t.publisher.spool + 1 < 2 ^ 64
      → FromTime t0 e
      → drops_of (step e t).1.publisher.spool ≡ drops_of t.publisher.spool
      → Held t0 t.publisher c
      → Held t0 (step e t).1.publisher c
  unfolding step
  step-Held (publishing w now m) t c few from same h =
      publish-Held w now m t.publisher c few from.0 from.1 same h
  step-Held listing t c few from same h = h
  step-Held (replaying r) t c few from same h = replay_next-Held r t.publisher t.pending c h

  publish-accepted :
      (w : Weather) (now : ℕ) (m : Message) (p : SpooledPublisher)
      → drops_of (publish w now m p).1.spool ≡ drops_of p.spool
      → All (Held t0 (publish w now m p).1) (accepted (publish w now m p).0 m)
  unfolding accepted
  publish-accepted w now m p same = elim (publish-Outcome w now m p) [
    | acknowledged acked ok' sent kept ↦ rw (ok', sent) (inl (Sent-last p.upstream.sent m), tt)
    | spooled s refused here ok' now_in sent ↦ elim (Bool-cases (append w now m.payload s).0) [
      | inl stored ↦
          rw (ok', stored, now_in)
            (
              inr (
                (append w now m.payload s).1,
                now,
                s.seq + 1,
                refl,
                inl (omega (arith, (append-counters w now m.payload s).0)),
                append_stores w now m.payload s stored (rw (now_in, here) at same),
              ),
              tt,
            )
      | inr failed ↦ rw (ok', failed) tt
    ]
    | lost refused here ok' sent kept ↦ rw ok' tt
  ]

  -- What a step accepts is held behind it, if it counts no drop.
  step-accepted :
      (e : PublisherEvent) (t : Running)
      → drops_of (step e t).1.publisher.spool ≡ drops_of t.publisher.spool
      → All (Held t0 (step e t).1.publisher) (step e t).0
  unfolding step
  step-accepted (publishing w now m) t same = publish-accepted w now m t.publisher same
  step-accepted listing t same = tt
  step-accepted (replaying r) t same = tt

run-drops :
    (es : List PublisherEvent) (t : Running)
    → drops_of t.publisher.spool ≤ drops_of (run es t).1.publisher.spool
unfolding run
run-drops [] t = omega arith
run-drops (e ∷ es) t = omega (arith, (step-Counts e t).drops_le, run-drops es (step e t).1)

-- Over any publishes, and replays that go file by file with publishes between any two of their
-- steps, whatever the broker answers and which calls of the file system fail: if the publishes
-- have times of 64 bits at t0 or later, they and the steps are fewer than the numbers left below
-- 2^64, and the spool counts no drop in them, then every payload that the broker had acknowledged
-- before, or that a batch held whose number the spool has given out or whose time is before t0,
-- and every payload whose Publish returned nil, has been acknowledged or is held by such a batch
-- at the end.
pub run-Held :
    (t0 : ℕ) (es : List PublisherEvent) (t : Running) (cs : List Bytes)
    → All (FromTime t0) es
    → seq_of t.publisher.spool + length es < 2 ^ 64
    → drops_of (run es t).1.publisher.spool ≡ drops_of t.publisher.spool
    → All (Held t0 t.publisher) cs
    → All (Held t0 (run es t).1.publisher) (cs ++ (run es t).0)
unfolding run
run-Held t0 [] t cs from few same h = rw append-nil h
run-Held t0 (e ∷ es) t cs from few same h =
    let counts = step-Counts e t in
    let next = (step e t).1 in
    let still : drops_of next.publisher.spool ≡ drops_of t.publisher.spool =
      omega (arith, counts.drops_le, run-drops es next, same) in
    let small : seq_of next.publisher.spool + length es < 2 ^ 64 = omega (arith, counts.seq_next) in
    let held =
      All-append (Held t0 next.publisher) cs (step e t).0
        (All-map (Held t0 t.publisher) (Held t0 next.publisher)
          (λ c. step-Held t0 e t c (omega arith) from.0 still) cs h)
        (step-accepted t0 e t still) in
    rw append_assoc at
      (run-Held t0 es next (cs ++ (step e t).0) from.1 small (omega (arith, same, still)) held)

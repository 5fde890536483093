-- ===== src/Transport/Publisher/Events.antt =====
-- internal/transport/spool.go: the steps of a `SpooledPublisher` over its life, with publishes between
-- any two rounds of a replay.
use blackboxd.Prelude.{
  ℕ, zero, suc, ◌≡◌, refl, ◌∙◌, ap, inl, inr, Bool, true, false, List, [], ◌∷◌, ◌++◌, Option, none,
  some, Bool-cases, length, replicate, if◌then◌else◌,
}
use blackboxd.Bytes.{Bytes}
use blackboxd.Transport.Spool.{Spool, Weather, list}
use blackboxd.Transport.Publisher.{
  Message, SpooledPublisher, publish, Replay, replay_file, replay_files,
}

-- What callers and the ticker of `Run` do: a `Publish`; the `List` of `replayOnce`, which takes no lock;
-- and one round of its loop, which holds `liveBusy` as `Publish` does.
pub data PublisherEvent : Type 0 where
  publishing : Weather → ℕ → Message → PublisherEvent
  listing : PublisherEvent
  replaying : Replay → PublisherEvent

-- The publisher, and the listed files that the replay at work has still before it.
pub record Running : Type 0 where
  pub publisher : SpooledPublisher
  pub pending : List Bytes

-- The payload of a publish that returned nil.
unfoldable pub accepted : Bool → Message → List Bytes
accepted true m = m.payload ∷ []
accepted false m = []

-- A replay starts only if there is none at work.
unfoldable pub listed : Option Spool → List Bytes → List Bytes
listed none ks = ks
listed (some s) [] = list s
listed (some s) (k ∷ ks) = k ∷ ks

unfoldable pub replay_next : Replay → SpooledPublisher → List Bytes → Running
replay_next r p [] = record { publisher = p; pending = [] }
replay_next r p (k ∷ ks) =
    let (goes_on, p') = replay_file r k p p.spool in
    record { publisher = p'; pending = if goes_on then ks else [] }

-- One event: the payload that its caller was told is safe, and the state.
unfoldable pub step : PublisherEvent → Running → List Bytes × Running
step (publishing w now m) t =
    let (done, p) = publish w now m t.publisher in (accepted done m, record t { publisher = p })
step listing t = ([], record t { pending = listed t.publisher.spool t.pending })
step (replaying r) t = ([], replay_next r t.publisher t.pending)

unfoldable pub run : List PublisherEvent → Running → List Bytes × Running
run [] t = ([], t)
run (e ∷ es) t = let (cs, t') = step e t in let (cs', t'') = run es t' in (cs ++ cs', t'')

replay_next-round :
    (r : Replay) (p : SpooledPublisher) (k : Bytes) (ks : List Bytes) (b : Bool)
    → (replay_file r k p p.spool).0 ≡ b
    → replay_next r p (k ∷ ks)
      ≡ record { publisher = (replay_file r k p p.spool).1; pending = if b then ks else [] }
unfolding replay_next
replay_next-round r p k ks b e = rw e refl

idle :
    (r : Replay) (n : ℕ) (p : SpooledPublisher)
    → (run (replicate n (replaying r)) (record { publisher = p; pending = [] })).1.publisher ≡ p
unfolding run step replay_next
idle r zero p = refl
idle r (suc n) p = idle r n p

-- With nothing between them, the rounds of a replay do what `replayOnce` does.
pub replay_files-run :
    (r : Replay) (ks : List Bytes) (p : SpooledPublisher)
    → (run
        (replicate (length ks) (replaying r))
        (record { publisher = p; pending = ks })).1.publisher
      ≡ replay_files r ks p
unfolding run step replay_files
replay_files-run r [] p = refl
replay_files-run r (k ∷ ks) p =
    let after = λ (t : Running). (run (replicate (length ks) (replaying r)) t).1.publisher in
    let next = (replay_file r k p p.spool).1 in
    elim (Bool-cases (replay_file r k p p.spool).0) [
      | inl goes_on ↦
          ap after (replay_next-round r p k ks true goes_on)
          ∙ rw goes_on (replay_files-run r ks next)
      | inr stops ↦
          ap after (replay_next-round r p k ks false stops) ∙ rw stops (idle r (length ks) next)
    ]

-- ===== src/Tests/Transport.antt =====
-- The spool and its publisher of internal/transport/spool.go at fixed inputs.
use blackboxd.Transport.Publisher.Counters.{drops_of}
use blackboxd.Transport.Publisher.Drained.{replay_once-drains}
use blackboxd.Transport.Publisher.Events.{
  step, accepted, listed, replay_next, PublisherEvent, publishing, listing, replaying, Running, run,
}
use blackboxd.Transport.Publisher.Runs.{Held, run-Held}
use blackboxd.Prelude.{
  List, All, map, ◌++◌, ◌≡◌, ◌≢◌, refl, ap, true, false, [], ◌∷◌, some, length, if◌then◌else◌,
  arith,
}
use blackboxd.Bytes.{Bytes, bytes, equal}
use blackboxd.Bytes.Sorted.{sorted_names, insert_name, bytes_ltb}
use blackboxd.Transport.Spool.{
  write_file, list, spool_files, has_suffix, read, delete, Spool, Weather, sync_fails, file,
  find_node, items, total_size, append, evict, put_file, remove_node, remove_all, no_fault,
  sort_items, insert_item, evict_loop,
}
use blackboxd.Transport.Spool.Names.{spool_name, padded, width, pad_digits}
use blackboxd.Transport.Spool.Eviction.{Evicted, evict-Evicted}
use blackboxd.Transport.Spool.Appends.{calm, written, append_fails, append_keeps, append_oversized}
use blackboxd.Transport.Publisher.{
  upstream_publish, fall_back, answer, other_answers, replay_body, replay_file, Message,
  SpooledPublisher, publish, Replay, replayed, replay_once,
}
use blackboxd.Transport.Publisher.Delivery.{Outcome, publish-Outcome}

-- A spool with one batch, which has a cap of eight bytes.
abbrev batch_name : Bytes
batch_name = bytes "a.jsonl.gz"

abbrev one_batch : Spool
one_batch = record {
  dir = (batch_name, file (bytes "first")) ∷ [];
  max_bytes = 8;
  seq = 0;
  drops = 0;
}

abbrev stormy : Weather
stormy = record {
  fault = sync_fails;
  tmp_removed = true;
  partial = [];
  dir_readable = true;
  remove_fails = λ k. false;
}

-- Three batches of twelve bytes together: one has to go.
abbrev full_spool : Spool
full_spool = record {
  dir =
      (bytes "2.jsonl.gz", file (bytes "four"))
      ∷ (bytes "3.jsonl.gz", file (bytes "more"))
      ∷ (bytes "1.jsonl.gz", file (bytes "last"))
      ∷ [];
  max_bytes = 8;
  seq = 3;
  drops = 0;
}

evict-Evicted_example : Evicted full_spool (evict (λ k. false) full_spool)
evict-Evicted_example = evict-Evicted full_spool

evict_test :
    (evict (λ k. false) full_spool).dir
    ≡ (bytes "2.jsonl.gz", file (bytes "four")) ∷ (bytes "3.jsonl.gz", file (bytes "more")) ∷ []
unfolding evict items total_size sort_items insert_item bytes_ltb evict_loop remove_all remove_node
    equal
evict_test = refl

append_fails_example :
    let (stored, s) = append stormy 5 (bytes "second") one_batch in
    (stormy.fault ≢ no_fault
      → (stored ≡ false)
        × (find_node batch_name s.dir ≡ find_node batch_name one_batch.dir)
        × (s.drops ≡ one_batch.drops))
    × (stormy.fault ≡ no_fault → stored ≡ true)
    × (stormy.fault ≡ no_fault
        → stormy.dir_readable ≡ false
        → (find_node batch_name s.dir ≡ (
            if equal (spool_name 5 1) batch_name
            then some (file (bytes "second"))
            else find_node batch_name one_batch.dir))
          × (s.drops ≡ one_batch.drops))
unfolding spool_name padded width pad_digits
append_fails_example =
    append_fails stormy 5 (bytes "second") one_batch batch_name
      (λ e. absurd (omega (arith, ap length e)))

append_keeps_example :
    let (stored, s) = append calm 5 (bytes "two") one_batch in
    (stored ≡ true)
    × (find_node batch_name s.dir ≡ (
        if equal (spool_name 5 1) batch_name
        then some (file (bytes "two"))
        else find_node batch_name one_batch.dir))
    × (s.drops ≡ one_batch.drops)
unfolding spool_name padded width pad_digits written items total_size put_file remove_node equal
append_keeps_example =
    append_keeps 5 (bytes "two") one_batch batch_name (omega arith)
      (λ e. absurd (omega (arith, ap length e)))

append_oversized_example :
    let (stored, s) = append calm 5 (bytes "very long") one_batch in
    (stored ≡ true) × (find_node batch_name s.dir ≢ some (file (bytes "very long")))
append_oversized_example = append_oversized 5 (bytes "very long") one_batch batch_name (omega arith)

-- A publisher whose broker refuses the first message and takes the next one.
abbrev publisher : SpooledPublisher
publisher = record {
  upstream = record { answers = false ∷ true ∷ []; sent = [] };
  spool = some one_batch;
  logs_topic = bytes "logs";
  qos = 1;
}

abbrev status : Message
status = record { topic = bytes "status"; payload = bytes "up"; qos = 1; retain = true }

publish-Outcome_example : Outcome calm 5 status publisher (publish calm 5 status publisher)
publish-Outcome_example = publish-Outcome calm 5 status publisher

abbrev undisturbed : Replay
undisturbed = record { ctx_done = λ k. false; delete_fails = λ k. false }

-- An empty spool; the broker refuses a message, takes it from the spool, and refuses the next one.
abbrev fresh_publisher : SpooledPublisher
fresh_publisher = record {
  upstream = record { answers = false ∷ true ∷ []; sent = [] };
  spool = some (record { dir = []; max_bytes = 8; seq = 0; drops = 0 });
  logs_topic = bytes "logs";
  qos = 1;
}

abbrev publisher_life : List PublisherEvent
publisher_life =
    publishing calm 5 status
    ∷ listing
    ∷ publishing calm 5 status
    ∷ replaying undisturbed
    ∷ publishing calm 5 status
    ∷ []

abbrev at_start : Running
at_start = record { publisher = fresh_publisher; pending = [] }

no_drop : drops_of (run publisher_life at_start).1.publisher.spool ≡ 0
unfolding run step accepted listed replay_next publish upstream_publish fall_back answer
    other_answers append evict write_file put_file remove_node find_node items total_size spool_name
    padded width pad_digits replay_file replay_body list spool_files has_suffix read delete
    sorted_names insert_name equal bytes_ltb
no_drop = refl

run-Held_example :
    All (Held 5 (run publisher_life at_start).1.publisher) (run publisher_life at_start).0
run-Held_example = run-Held 5 publisher_life at_start [] (ground arith) (omega arith) no_drop tt

-- Two batches, and the rest of an attempt to write a third.
abbrev two_batches : Spool
two_batches = record {
  dir =
      (bytes "2.jsonl.gz", file (bytes "b"))
      ∷ (bytes "3.jsonl.gz.tmp", file (bytes "c"))
      ∷ (bytes "1.jsonl.gz", file (bytes "a"))
      ∷ [];
  max_bytes = 8;
  seq = 3;
  drops = 0;
}

abbrev waiting_publisher : SpooledPublisher
waiting_publisher = record {
  upstream = record { answers = true ∷ true ∷ false ∷ []; sent = [] };
  spool = some two_batches;
  logs_topic = bytes "logs";
  qos = 1;
}

replay_once-drains_example :
    (bodies : List Bytes) × (s' : Spool) × (map (λ k. read k two_batches) (list two_batches)
      ≡ map some bodies)
    × ((replay_once undisturbed waiting_publisher).upstream.sent
        ≡ [] ++ map (replayed waiting_publisher) bodies)
    × ((replay_once undisturbed waiting_publisher).spool ≡ some s')
    × (list s' ≡ [])
    × (s'.drops ≡ 0)
unfolding list spool_files has_suffix sorted_names insert_name bytes_ltb equal find_node
replay_once-drains_example =
    replay_once-drains undisturbed waiting_publisher two_batches (false ∷ []) refl refl
      (refl, (refl, (refl, tt))) (λ k. refl) (λ k. refl)

-- ===== src/Transport/Publisher/Drained.antt =====
-- internal/transport/spool.go: what `replayOnce` does when the broker takes everything.
use blackboxd.Prelude.{
  ◌≡◌, refl, ◌∙◌, sym, ap, Bool, true, false, List, [], ◌∷◌, ◌++◌, some, length, map, replicate,
  append-nil, append_assoc,
}
use blackboxd.Bytes.{Bytes}
use blackboxd.Transport.Spool.{Spool, file, find_node, remove_all, spool_files, list, read, delete}
use blackboxd.Transport.Spool.Listing.{
  Unique, IsStored, Differ, Bodies, spool_files-AreStored, spool_files-Differ, sorted_names-Differ,
  sorted_names-All, read-Bodies, read-file, Bodies-remove_node, Bodies-exist,
}
use blackboxd.Transport.Spool.Emptied.{list_emptied}
use blackboxd.Transport.Publisher.{
  Message, SpooledPublisher, answer, other_answers, upstream_publish, Replay, replayed, replay_body,
  replay_file, replay_files, replay_listed, replay_once,
}

-- The publisher with other answers to come, messages sent and spool.
abbrev within : SpooledPublisher → List Bool → List Message → Spool → SpooledPublisher
within p as' ms s = record p { upstream = record { answers = as'; sent = ms }; spool = some s }

module _ (r : Replay) (open_all : (k : Bytes) → r.ctx_done k ≡ false)
    (deletes : (k : Bytes) → r.delete_fails k ≡ false) where
  replay_file_lem :
      (p : SpooledPublisher) (k b : Bytes) (as' : List Bool) (ms : List Message) (s : Spool)
      → find_node k s.dir ≡ some (file b)
      → replay_file r k (within p (true ∷ as') ms s) (some s)
        ≡ (true, within p as' (ms ++ (replayed p b ∷ [])) (delete k s))
  unfolding replay_file replay_body upstream_publish answer other_answers
  replay_file_lem p k b as' ms s here =
      rw (open_all k, read-file k s here, replay_body, deletes k) refl

  replay_files_lem :
      (p : SpooledPublisher) (ks bs : List Bytes) (as' : List Bool) (ms : List Message) (s : Spool)
      → Differ ks
      → Bodies ks bs s.dir
      → replay_files r ks (within p (replicate (length ks) true ++ as') ms s)
        ≡ within p as' (ms ++ map (replayed p) bs) (record s { dir = remove_all ks s.dir })
  unfolding replay_files remove_all delete
  replay_files_lem p [] [] as' ms s ds h = rw append-nil refl
  replay_files_lem p [] (b ∷ bs) as' ms s ds h = absurd h
  replay_files_lem p (k ∷ ks) [] as' ms s ds h = absurd h
  replay_files_lem p (k ∷ ks) (b ∷ bs) as' ms s ds (here, h) =
      rw (replay_file_lem p k b (replicate (length ks) true ++ as') ms s here) (
        replay_files_lem p ks bs as' (ms ++ (replayed p b ∷ [])) (delete k s) ds.1
          (Bodies-remove_node k s.dir ks bs ds.0 h)
        ∙ rw append_assoc refl)

-- When the broker takes every message, no call fails and the context is not done, a replay of a
-- spool whose names are different sends the contents of the files that List lists, in its order
-- and each once, and leaves a spool that lists nothing and has counted no more drops.
pub replay_once-drains :
    (r : Replay) (p : SpooledPublisher) (s : Spool) (later : List Bool)
    → p.spool ≡ some s
    → p.upstream.answers ≡ replicate (length (list s)) true ++ later
    → Unique s.dir
    → ((k : Bytes) → r.ctx_done k ≡ false)
    → ((k : Bytes) → r.delete_fails k ≡ false)
    → (bodies : List Bytes) × (s' : Spool) × (map (λ k. read k s) (list s) ≡ map some bodies)
      × ((replay_once r p).upstream.sent ≡ p.upstream.sent ++ map (replayed p) bodies)
      × ((replay_once r p).spool ≡ some s')
      × (list s' ≡ [])
      × (s'.drops ≡ s.drops)
unfolding replay_once replay_listed list
replay_once-drains r p s later here takes u open_all deletes =
    let names = spool_files s.dir in
    let stored = sorted_names-All (IsStored s.dir) names (spool_files-AreStored s.dir u) in
    let (bodies, found) = Bodies-exist s.dir (list s) stored in
    let same : p ≡ within p (replicate (length (list s)) true ++ later) p.upstream.sent s =
      rw (sym takes, sym here) refl in
    let run : replay_once r p
        ≡ within p later (p.upstream.sent ++ map (replayed p) bodies)
            (record s { dir = remove_all (list s) s.dir }) =
      ap (replay_once r) same
      ∙ replay_files_lem r open_all deletes p (list s) bodies later p.upstream.sent s
          (sorted_names-Differ names (spool_files-Differ s.dir u)) found in
    (
      bodies,
      record s { dir = remove_all (list s) s.dir },
      read-Bodies s (list s) bodies found,
      ap (λ x. x.upstream.sent) run,
      ap (λ x. x.spool) run,
      list_emptied s u,
      refl,
    )

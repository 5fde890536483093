-- ===== src/Transport/Publisher/Delivery.antt =====
-- What becomes of a message in `Publish`, and of a spooled file in `replayOnce`.
use blackboxd.Prelude.{
  ℕ, ◌≡◌, refl, ◌∙◌, sym, subst, ◌⊎◌, inl, inr, Bool, true, false, List, [], ◌∷◌, ◌++◌, Option,
  none, some, if◌then◌else◌, Bool-cases, Option-cases,
}
use blackboxd.Bytes.{Bytes, equal}
use blackboxd.Bytes.Laws.{equal_iff}
use blackboxd.Transport.Spool.{Spool, file, find_node, Weather, append, read, delete}
use blackboxd.Transport.Spool.Appends.{find_node-remove_node}
use blackboxd.Transport.Spool.Listing.{read-file}
use blackboxd.Transport.Publisher.{
  Message, SpooledPublisher, answer, upstream_publish, fall_back, publish, Replay, replayed,
  replay_body, replay_file,
}

-- A payload that the broker has acknowledged, among its messages.
abbrev pub Sent : Bytes → List Message → Type 0
Sent c [] = ⊥
Sent c (m ∷ ms) = (m.payload ≡ c) ⊎ Sent c ms

pub Sent-append : (c : Bytes) (ms ns : List Message) → Sent c ms → Sent c (ms ++ ns)
Sent-append c [] ns h = absurd h
Sent-append c (m ∷ ms) ns (inl e) = inl e
Sent-append c (m ∷ ms) ns (inr h) = inr (Sent-append c ms ns h)

pub Sent-last : (ms : List Message) (m : Message) → Sent m.payload (ms ++ (m ∷ []))
Sent-last [] m = inl refl
Sent-last (x ∷ ms) m = inr (Sent-last ms m)

-- The outcome of `Publish`, on every path: the broker's acknowledgement and an untouched spool; or
-- the spool's answer to `Append`; or an error where there is no spool.
pub data Outcome (w : Weather) (now : ℕ) (m : Message) (p : SpooledPublisher)
    : Bool × SpooledPublisher → Type 0 where
  acknowledged :
      {out : Bool × SpooledPublisher}
      → answer p.upstream.answers ≡ true
      → out.0 ≡ true
      → out.1.upstream.sent ≡ p.upstream.sent ++ (m ∷ [])
      → out.1.spool ≡ p.spool
      → Outcome w now m p out
  spooled :
      {out : Bool × SpooledPublisher} (s : Spool)
      → answer p.upstream.answers ≡ false
      → p.spool ≡ some s
      → out.0 ≡ (append w now m.payload s).0
      → out.1.spool ≡ some (append w now m.payload s).1
      → out.1.upstream.sent ≡ p.upstream.sent
      → Outcome w now m p out
  lost :
      {out : Bool × SpooledPublisher}
      → answer p.upstream.answers ≡ false
      → p.spool ≡ none
      → out.0 ≡ false
      → out.1.upstream.sent ≡ p.upstream.sent
      → out.1.spool ≡ none
      → Outcome w now m p out

-- Every Publish ends in one of three ways: the broker acknowledged the message, nil is returned
-- and the spool is untouched; or the broker refused it, there is a spool, and the result and the
-- spool are those of Append with nothing more sent; or the broker refused it, there is no spool,
-- and an error is returned with nothing sent.
pub publish-Outcome :
    (w : Weather) (now : ℕ) (m : Message) (p : SpooledPublisher)
    → Outcome w now m p (publish w now m p)
unfolding publish upstream_publish fall_back
publish-Outcome w now m p = elim (Bool-cases (answer p.upstream.answers)) [
  | inl acked ↦ acknowledged acked (rw acked) (rw acked) (rw acked)
  | inr refused ↦ elim (Option-cases p.spool) [
    | inl no_spool ↦
        lost refused no_spool (simp (refused, no_spool)) (simp (refused, no_spool))
          (simp (refused, no_spool))
    | inr (s, e) ↦ spooled s refused e (simp (refused, e)) (simp (refused, e)) (simp (refused, e))
  ]
]

-- The file `k` holds `c`, or `c` has been acknowledged.
abbrev pub Safe : Bytes → Bytes → SpooledPublisher → Type 0
Safe k c p =
    ((s : Spool) × (p.spool ≡ some s) × (find_node k s.dir ≡ some (file c)))
    ⊎ Sent c p.upstream.sent

-- A delete of one file leaves every other, and what it deletes is what was read.
delete_keeps :
    (j k : Bytes) (s : Spool) (body c : Bytes)
    → read j s ≡ some body
    → find_node k s.dir ≡ some (file c)
    → (find_node k (delete j s).dir ≡ some (file c)) ⊎ (body ≡ c)
unfolding delete
delete_keeps j k s body c found there = elim (Bool-cases (equal j k)) [
  | inl same ↦
      let jk : j ≡ k = (equal_iff j k).0 same in
      let both : some body ≡ some c = sym found ∙ rw jk (read-file k s there) in inr (cc)
  | inr other ↦ inl (find_node-remove_node j k s.dir ∙ rw other there)
]

-- The spool behind a replayed file.
after_delete : Replay → Bytes → Spool → Spool
after_delete r j s = if r.delete_fails j then s else delete j s

after_delete_keeps :
    (r : Replay) (j k : Bytes) (s : Spool) (body c : Bytes)
    → read j s ≡ some body
    → find_node k s.dir ≡ some (file c)
    → (find_node k (after_delete r j s).dir ≡ some (file c)) ⊎ (body ≡ c)
unfolding after_delete
after_delete_keeps r j k s body c found there = elim (Bool-cases (r.delete_fails j)) [
  | inl fails ↦ rw fails (inl there)
  | inr works ↦ rw works (delete_keeps j k s body c found there)
]

replay_body-Safe :
    (r : Replay) (j k c : Bytes) (p : SpooledPublisher) (s : Spool) (o : Option Bytes)
    → p.spool ≡ some s
    → read j s ≡ o
    → Safe k c p
    → Safe k c (replay_body r j p s o).1
unfolding replay_body upstream_publish after_delete
replay_body-Safe r j k c p s none e found h = h
replay_body-Safe r j k c p s (some body) e found (inr sent) =
    elim (Bool-cases (answer p.upstream.answers)) [
      | inl acked ↦ rw acked (inr (Sent-append c p.upstream.sent (replayed p body ∷ []) sent))
      | inr refused ↦ rw refused (inr sent)
    ]
replay_body-Safe r j k c p s (some body) e found (inl (s', e', there)) =
    elim (Bool-cases (answer p.upstream.answers)) [
      | inl acked ↦
          let same : s' ≡ s = cc in
          rw acked (elim (after_delete_keeps r j k s body c found (rw same at there)) [
            | inl kept ↦ inl (after_delete r j s, refl, kept)
            | inr is_c ↦ inr (
                subst (λ (x : Bytes). Sent x (p.upstream.sent ++ (replayed p body ∷ []))) is_c
                  (Sent-last p.upstream.sent (replayed p body)))
          ])
      | inr refused ↦ rw refused (inl (s', e', there))
    ]

pub replay_file-Safe :
    (r : Replay) (j k c : Bytes) (p : SpooledPublisher) (o : Option Spool)
    → p.spool ≡ o
    → Safe k c p
    → Safe k c (replay_file r j p o).1
unfolding replay_file
replay_file-Safe r j k c p none e h = h
replay_file-Safe r j k c p (some s) e h = elim (Bool-cases (r.ctx_done j)) [
  | inl done ↦ rw done h
  | inr open' ↦ rw open' (replay_body-Safe r j k c p s (read j s) e refl h)
]

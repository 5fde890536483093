-- ===== src/Transport/Publisher.antt =====
-- internal/transport/spool.go: `SpooledPublisher`, which spools what it cannot publish and replays it.
-- The upstream is its answers to come, in order; with no answer left it fails. What it acknowledged is
-- kept in `sent`.
pub mod Delivery
pub mod Counters
pub mod Events
pub mod Runs
pub mod Drained
use blackboxd.Prelude.{ℕ, Bool, true, false, List, [], ◌∷◌, ◌++◌, Option, none, some, if◌then◌else◌}
use blackboxd.Bytes.{Bytes}
use blackboxd.Transport.Spool.{Spool, Weather, append, list, read, delete}

-- What a publish hands to the broker.
pub record Message : Type 0 where
  pub topic : Bytes
  pub payload : Bytes
  pub qos : ℕ
  pub retain : Bool

pub record Upstream : Type 0 where
  pub answers : List Bool
  pub sent : List Message

unfoldable pub answer : List Bool → Bool
answer [] = false
answer (a ∷ as') = a

unfoldable pub other_answers : List Bool → List Bool
other_answers [] = []
other_answers (a ∷ as') = as'

-- `upstream.Publish`: whether it returned nil.
unfoldable pub upstream_publish : Message → Upstream → Bool × Upstream
upstream_publish m u =
    if answer u.answers
    then (true, record { answers = other_answers u.answers; sent = u.sent ++ (m ∷ []) })
    else (false, record u { answers = other_answers u.answers })

-- `SpooledPublisher`; a nil spool is `none`.
pub record SpooledPublisher : Type 0 where
  pub upstream : Upstream
  pub spool : Option Spool
  pub logs_topic : Bytes
  pub qos : ℕ

-- The second half of `Publish`, for a message that the upstream refused.
unfoldable pub fall_back :
    Weather → ℕ → Bytes → SpooledPublisher → Option Spool → Bool × SpooledPublisher
fall_back w now payload p none = (false, p)
fall_back w now payload p (some s) =
    let (written, s') = append w now payload s in (written, record p { spool = some s' })

-- `Publish`: whether it returned nil.
unfoldable pub publish : Weather → ℕ → Message → SpooledPublisher → Bool × SpooledPublisher
publish w now m p =
    let (acked, u) = upstream_publish m p.upstream in
    let p' = record p { upstream = u } in
    if acked then (true, p') else fall_back w now m.payload p' p'.spool

-- What the environment does to a replay: at which file the context is done, and which deletes fail.
pub record Replay : Type 0 where
  pub ctx_done : Bytes → Bool
  pub delete_fails : Bytes → Bool

-- The message that a replay makes of a file.
abbrev pub replayed : SpooledPublisher → Bytes → Message
replayed p body = record { topic = p.logs_topic; payload = body; qos = p.qos; retain = false }

-- One round of the loop of `replayOnce`: whether it goes on, and the state.
unfoldable pub replay_body :
    Replay → Bytes → SpooledPublisher → Spool → Option Bytes → Bool × SpooledPublisher
replay_body r k p s none = (false, p)
replay_body r k p s (some body) =
    let (acked, u) = upstream_publish (replayed p body) p.upstream in
    if acked
    then (
      true,
      record p { upstream = u; spool = some (if r.delete_fails k then s else delete k s) },
    )
    else (false, record p { upstream = u })

unfoldable pub replay_file :
    Replay → Bytes → SpooledPublisher → Option Spool → Bool × SpooledPublisher
replay_file r k p none = (false, p)
replay_file r k p (some s) = if r.ctx_done k then (false, p) else replay_body r k p s (read k s)

unfoldable pub replay_files : Replay → List Bytes → SpooledPublisher → SpooledPublisher
replay_files r [] p = p
replay_files r (k ∷ ks) p =
    let (goes_on, p') = replay_file r k p p.spool in
    let rest = replay_files r ks p' in if goes_on then rest else p'

unfoldable pub replay_listed : Replay → SpooledPublisher → Option Spool → SpooledPublisher
replay_listed r p none = p
replay_listed r p (some s) = replay_files r (list s) p

-- `replayOnce`, on a directory that can be listed.
unfoldable pub replay_once : Replay → SpooledPublisher → SpooledPublisher
replay_once r p = replay_listed r p p.spool

-- `NewSpooledPublisher`.
unfoldable pub new_spooled_publisher : Upstream → Option Spool → Bytes → ℕ → SpooledPublisher
new_spooled_publisher upstream spool logs_topic qos = record {
  upstream = upstream;
  spool = spool;
  logs_topic = logs_topic;
  qos = qos;
}

-- `Run`: what the `select` receives, and the loop over it.
pub data Tick : Type 0 where
  run_done : Tick
  ticked : Replay → Tick

unfoldable pub run_ticks : List Tick → SpooledPublisher → SpooledPublisher
run_ticks [] p = p
run_ticks (run_done ∷ ts) p = p
run_ticks (ticked r ∷ ts) p = run_ticks ts (replay_once r p)

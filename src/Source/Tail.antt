-- ===== src/Source/Tail.antt =====
-- internal/source/file.go: the loop of `FileSource.Run`, a round as a step, and `ExpandGlob`.
use blackboxd.Prelude.{
  ℕ, Bool, false, ◌||◌, List, [], ◌∷◌, ◌++◌, Option, none, some, Result, ok, err, ◌==◌,
  if◌then◌else◌,
}
use blackboxd.Bytes.{Bytes}
use blackboxd.Entry.{LogEntry, ParseError}
use blackboxd.Source.File.{
  FileConfig, FileSource, OpenFile, Info, Offset, SourceError, DrainEnd, drained, cancelled,
  read_failed, drain, check_rotation, open_initial, persist_offset,
}

-- How the select at the end of a round ends.
pub data Pause : Type 0 where
  context_done save_tick poll : Pause

-- What a round meets: what was appended to the open file since the last one, how often the drain
-- finds the context not done, what the calls of `checkRotation` return, and the select.
pub record Round : Type 0 where
  pub appended : Bytes
  pub checks : ℕ
  pub link : Option Bool
  pub stat : Option Info
  pub opened : Option OpenFile
  pub current : OpenFile
  pub seeks : Bool
  pub pause : Pause

-- What has been appended can be read.
unfoldable pub grown : Bytes → FileSource → FileSource
grown more s = record s { reader = record s.reader { unread = s.reader.unread ++ more } }

-- What a round leaves: the entries, the offset if it is persisted, and the source if it runs on.
pub record Turn : Type 0 where
  pub entries : List LogEntry
  pub persisted : Option Offset
  pub next : Option FileSource

unfoldable pub after_pause : FileConfig → Pause → List LogEntry → FileSource → Turn
after_pause cfg context_done es s = record {
  entries = es;
  persisted = persist_offset cfg s;
  next = none;
}
after_pause cfg save_tick es s = record {
  entries = es;
  persisted = persist_offset cfg s;
  next = some s;
}
after_pause cfg poll es s = record { entries = es; persisted = none; next = some s }

-- What follows a drain. An error of `checkRotation` is only logged.
unfoldable pub after_drain : FileConfig → Round → List LogEntry → DrainEnd → FileSource → Turn
after_drain cfg r es cancelled s = record {
  entries = es;
  persisted = persist_offset cfg s;
  next = none;
}
after_drain cfg r es drained s =
    after_pause cfg r.pause es (check_rotation cfg s r.link r.stat r.opened r.current r.seeks).1
after_drain cfg r es read_failed s =
    after_pause cfg r.pause es (check_rotation cfg s r.link r.stat r.opened r.current r.seeks).1

module _ (parser : Bytes → Result ParseError LogEntry) (valid_string : Bytes → Bool)
    (to_valid_utf8 : Bytes → Bytes) where
  unfoldable pub run_round : FileConfig → FileSource → Round → Turn
  run_round cfg s r =
      let s' = grown r.appended s in
      let (es, end, reader) = drain parser valid_string to_valid_utf8 r.checks cfg s'.reader in
      after_drain cfg r es end (record s' { reader = reader })

  -- The loop of `Run`, until the context is done: the entries, and what is persisted last.
  unfoldable pub run_rounds : FileConfig → FileSource → List Round → List LogEntry × Option Offset
  run_rounds cfg s [] = ([], persist_offset cfg s)
  run_rounds cfg s (r ∷ rs) =
      let t = run_round cfg s r in
      elim t.next [
        | none ↦ (t.entries, t.persisted)
        | some s' ↦ (let (later, last) = run_rounds cfg s' rs in (t.entries ++ later, last))
      ]

  -- `Run`: what `openInitial` meets, and then the rounds.
  unfoldable pub run :
      FileConfig
      → Option Bool
      → Option OpenFile
      → Option Offset
      → List Round
      → Result SourceError (List LogEntry × Option Offset)
  run cfg link opened loaded rs = elim (open_initial cfg link opened loaded) [
    | err e ↦ err e
    | ok s ↦ ok (run_rounds cfg s rs)
  ]

-- `hasMeta`.
unfoldable pub has_meta : Bytes → Bool
has_meta [] = false
has_meta (c ∷ cs) = (c == b'*') || ((c == b'?') || ((c == b'[') || has_meta cs))

-- `ExpandGlob`, for `os.Stat` (whether it finds the path) and `filepath.Glob`.
unfoldable pub expand_glob :
    (Bytes → Bool) → (Bytes → Option (List Bytes)) → Bytes → Option (List Bytes)
expand_glob found glob pattern =
    if has_meta pattern then glob pattern else if found pattern then some (pattern ∷ []) else none

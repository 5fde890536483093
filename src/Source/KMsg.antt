-- ===== src/Source/KMsg.antt =====
-- internal/source/kmsg_linux.go: `KMsgSource`, and `MakeBoundedEmit` of source.go. What the reads of
-- the device return is an argument.
use blackboxd.Prelude.{
  ℕ, ◌+◌, ◌%◌, ◌^◌, Bool, true, false, List, [], ◌∷◌, ◌++◌, Option, none, some, Result, ok, err,
  if◌then◌else◌,
}
use blackboxd.Prelude.Int.{ℤ, pos, ltb_ℤ}
use blackboxd.Bytes.{Bytes, bytes, equal}
use blackboxd.Entry.{LogEntry, ParseError}
use blackboxd.Source.File.{sanitize_utf8}

-- `KMsgSourceConfig`; an interval is in nanoseconds.
pub record KMsgSourceConfig : Type 0 where
  pub name : Bytes
  pub has_parser : Bool
  pub path : Bytes
  pub poll_interval : ℤ
  pub from_beginning : Bool

-- `NewKMsgSource`; `none` is its error.
unfoldable pub new_kmsg_source : KMsgSourceConfig → Option KMsgSourceConfig
new_kmsg_source cfg =
    if equal cfg.name []
    then none
    else if cfg.has_parser
    then some (record cfg {
      path = if equal cfg.path [] then bytes "/dev/kmsg" else cfg.path;
      poll_interval = if ltb_ℤ (pos 0) cfg.poll_interval then cfg.poll_interval else pos 200000000;
    })
    else none

-- What a read of the device returns: EAGAIN or EOF, EPIPE, another error, or bytes.
pub data DeviceRead : Type 0 where
  again overrun failure : DeviceRead
  device_record : Bytes → DeviceRead

module _ (parser : Bytes → Result ParseError LogEntry) (valid_string : Bytes → Bool)
    (to_valid_utf8 : Bytes → Bytes) where
  -- What is emitted of the bytes of a read.
  unfoldable pub emit_device_record : Bytes → Bytes → List LogEntry
  emit_device_record name [] = []
  emit_device_record name (c ∷ cs) = elim (parser (c ∷ cs)) [
    | err e ↦ []
    | ok e ↦ sanitize_utf8 parser valid_string to_valid_utf8 (record e { source = name }) ∷ []
  ]

  -- The loop of `Run`, until the context is done: the entries, and whether it returns nil.
  unfoldable pub run_device : Bytes → List DeviceRead → List LogEntry × Bool
  run_device name [] = ([], true)
  run_device name (failure ∷ rs) = ([], false)
  run_device name (again ∷ rs) = run_device name rs
  run_device name (overrun ∷ rs) = run_device name rs
  run_device name (device_record b ∷ rs) =
      let (later, good) = run_device name rs in (emit_device_record name b ++ later, good)

-- `MakeBoundedEmit`: the sink and the drop counter, a `uint64`, after a call. `ready` says that the
-- sink takes the entry at once, `in_time` that it does within the budget.
unfoldable pub bounded_emit : Bool → Bool → Option LogEntry → List LogEntry → ℕ → List LogEntry × ℕ
bounded_emit ready in_time none sink drops = (sink, drops)
bounded_emit ready in_time (some e) sink drops =
    if ready
    then (sink ++ (e ∷ []), drops)
    else if in_time
    then (sink ++ (e ∷ []), drops)
    else (sink, (drops + 1) % 2 ^ 64)

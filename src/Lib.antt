-- ===== src/Lib.antt =====
-- blackboxd, a daemon that collects log lines on a device, batches them and publishes them over MQTT.
--
-- How the parts interact. A source (internal/source) reads lines, has a parser (internal/parser) make
-- entries of them, and emits them past a rate limiter into a ring buffer (internal/pipeline). The
-- batcher takes entries out of the ring in batches and hands each batch to a publisher
-- (internal/transport), which spools to disk what the broker does not take and replays it later.
-- internal/config reads the configuration, fills in its defaults and validates it; internal/security
-- checks its paths, modes and pins, and makes the TLS
-- settings of the connection to the broker. The one-shot mode (internal/oneshot) merges what several sources
-- give by time, with no daemon running.
--
-- Files and what they model:
--   Entry, Entry/Level             internal/parser/parser.go: `LogEntry`, `Level`
--   Parser/Common                  internal/parser/syslog_common.go
--   Parser/KMsg                    internal/parser/kmsg.go: `Parse`
--   Parser/SyslogBsd               internal/parser/syslog_bsd.go: `Parse`, `splitTagAndMessage`
--   Parser/Rfc5424                 internal/parser/syslog_rfc5424.go: `Parse`, `readStructuredData`
--   Parser/Journald                internal/parser/journald.go: `Parse`, `assignJournaldField`
--   Pipeline/Ring                  internal/pipeline/ring.go: `RingBuffer`
--   Pipeline/Queue                 the abstract queue that a ring buffer implements
--   Pipeline/Batcher               internal/pipeline/batcher.go: `Run`, a turn of its loop as a step
--   Pipeline/Serialize             internal/pipeline/serialize.go
--   Pipeline/Rate                  internal/pipeline/rate.go: `RateLimiter.Allow`
--   Transport/Topics               internal/transport/transport.go: `NewTopics`
--   Transport/Spool                internal/transport/spool.go: `Spool`
--   Transport/Publisher            internal/transport/spool.go: `SpooledPublisher`
--   Transport/Mqtt                 internal/transport/mqtt.go
--   Source/Reader                  internal/source/file.go: `readLine`, `discardThroughNewline`
--   Source/File                    internal/source/file.go: opening, draining, rotation; offset.go
--   Security/Paths, Modes, Pin     internal/security/paths.go, modes.go, pin.go
--   Security/Tls                   internal/security/tls.go; pin.go: `MatchPin`
--   Parser/Dmesg                   internal/parser/dmesg.go: `Parse`, `parseDmesgTimestamp`
--   Parser/Factories               internal/parser: the constructors of the parsers, their `init`
--   Parser/Registry                internal/parser/registry.go
--   Config/Schema                  internal/config/config.go
--   Config/Defaults, Validate      internal/config/load.go: `applyDefaults`, `Validate`
--   Config/Load                    internal/config/load.go: `decodeParserOptions`, `Parse`, `Load`
--   Source/Tail                    internal/source/file.go: `Run`, `ExpandGlob`
--   Source/Offsets                 internal/source/offset.go: `Load`, `Save`
--   Source/KMsg                    internal/source/kmsg_linux.go; source.go: `MakeBoundedEmit`
--   Source/Journal                 internal/source/journal.go: `argv`, `consume`, `emitRecord`
--   Oneshot/Sources                internal/oneshot/sources.go; internal/source/dmesg.go: `RunDmesg`
--   Oneshot/Dump                   cmd/blackboxd/dump.go; main.go: `runDump`
--   Oneshot/Closing                internal/oneshot/oneshot.go: `OpenOutput`, `writerCloser`
--   Command                        cmd/blackboxd/main.go, flags.go
--   Oneshot/Heap                   internal/oneshot/oneshot.go: `mergeHeap` under container/heap
--   Oneshot/Merge                  internal/oneshot/oneshot.go: `Filter`, `Merge`
-- Bytes has the functions of Go's strings and strconv packages that these use; Prelude has what all
-- files share; Tests runs the definitions and applies the theorems at fixed inputs.
--
-- State is passed explicitly: a method under a mutex is one function from the state to the state, and
-- its result comes first. A slice of bytes is a list of numbers; an `int` of the source is an integer
-- or, where the code never lets it be negative, a natural number. A time is the number of
-- nanoseconds since Go's zero time. What the file system, the broker and the clock do is an argument
-- of the function that depends on it. The number of a spool's last batch is not cut to 64 bits: what is
-- said of a whole life of the publisher is for fewer batches than 2^64.
--
-- The publisher's lock is held for one publish or for one file of a replay, so these are its steps
-- (Transport/Publisher/Events). The counter of the ring's drops is a number and does not wrap.
--
-- Fuel. The eviction of `Push` runs on the size of the ring, the discard of an overlong line on the
-- number of bytes, and the scan of structured data on the length of the text: each round takes one of
-- these at least; so do the decoding of a batch and the first field of /proc/uptime, on the length
-- of the text. The rounds of `drain` are those before its context is done. The merge runs on one
-- round more than there are entries, and the sift of its heap on the length of the heap.
--
-- Not modelled: goroutine scheduling beyond the steps above, the arithmetic of floats (a parameter of
-- the rate limiter, the dmesg parser and /proc/uptime), the calendar (a parameter of the parsers that
-- read dates), UTF-8 repair (a parameter of the file source), the TOML
-- decoder (a parameter of the configuration), JSON and gzip (a parameter of the serialisation), the
-- MQTT client library, certificates and hashes (parameters of the publisher and of the TLS settings),
-- the starting of subprocesses (what they write is an argument), the package flag (a parameter of the
-- commands), what is logged or printed, and the two functions for tests of the parser registry.
pub mod Prelude
pub mod Bytes
pub mod Entry
pub mod Parser
pub mod Pipeline
pub mod Transport
pub mod Source
pub mod Security
pub mod Oneshot
pub mod Config
pub mod Command
pub mod Tests

-- ===== src/Config/Validate/Accepted.antt =====
-- The configurations that `Validate` accepts.
use blackboxd.Prelude.{◌≡◌, ◌≢◌, ◌↔◌, Bool, List, [], All, ok, chain_iff}
use blackboxd.Bytes.{Bytes}
use blackboxd.Config.Schema.{Config, allowlist}
use blackboxd.Config.Validate.{FileSystem, validate}
use blackboxd.Config.Validate.Safe.{
  IsDaemon, IsParser, IsSource, IsDaemon-iff, parsers_iff, sources_iff,
}
use blackboxd.Config.Validate.Connection.{IsTransport, IsTransport-iff}

-- Every part of the configuration is as it has to be, whatever the order of its maps.
pub record IsSafe (V : Type 0) (fs : FileSystem) (skip : Bool) (known : List Bytes) (c : Config V)
    : Type 0 where
  pub daemon : IsDaemon fs skip (allowlist c) c.daemon
  pub some_parser : c.parsers ≢ []
  pub parsers : All (IsParser known) c.parsers
  pub sources : All (IsSource (allowlist c) c.parsers) c.sources
  pub transport : IsTransport fs skip c.transport

-- Validate accepts a configuration exactly when the two identifiers are 1 to 64 letters, digits,
-- underscores or hyphens, the log level is one of four, the state directory is empty, or allowed
-- and (unless the file checks are skipped) owned with mode 0700, there is a parser, each parser
-- has a registered type, each source has a defined parser and is a file or journal of an allowed
-- path or kmsg, and the transport settings are as IsTransport says, where the paths of the
-- certificates and the key need only be absolute.
pub validate_iff :
    {V : Type 0} (fs : FileSystem) (skip : Bool) (known : List Bytes) (c : Config V)
    → (validate fs skip known c ≡ ok tt) ↔ IsSafe V fs skip known c
unfolding validate
validate_iff fs skip known c =
    let (there, back) = chain_iff _ _ (IsDaemon-iff fs skip (allowlist c) c.daemon) (
      chain_iff _ _ (parsers_iff known c.parsers) (
        chain_iff _ _ (sources_iff (allowlist c) c.parsers c.sources)
          (IsTransport-iff fs skip c.transport))) in
    (
      λ h.
          let (daemon, ((more, parsers), (sources, transport))) = there h in
          record {
            daemon = daemon;
            some_parser = more;
            parsers = parsers;
            sources = sources;
            transport = transport;
          },
      λ h. back (h.daemon, ((h.some_parser, h.parsers), (h.sources, h.transport))),
    )

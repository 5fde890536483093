-- ===== src/Transport/Topics.antt =====
-- internal/transport/transport.go: the topics of a device.
use blackboxd.Prelude.{◌||◌, [], ◌++◌, Option, none, some, if◌then◌else◌}
use blackboxd.Bytes.{Bytes, bytes, equal}

-- `Topics`.
pub record Topics : Type 0 where
  pub logs : Bytes
  pub status : Bytes
  pub heartbeat : Bytes
  pub metrics : Bytes

-- `fmt.Sprintf("blackbox/v1/%s/%s", tenant, deviceID)`.
unfoldable pub base : Bytes → Bytes → Bytes
base tenant device = bytes "blackbox/v1/" ++ (tenant ++ (bytes "/" ++ device))

-- `NewTopics`; `none` is its error.
unfoldable pub new_topics : Bytes → Bytes → Option Topics
new_topics tenant device =
    if equal tenant [] || equal device []
    then none
    else some (record {
      logs = base tenant device ++ bytes "/logs";
      status = base tenant device ++ bytes "/status";
      heartbeat = base tenant device ++ bytes "/heartbeat";
      metrics = base tenant device ++ bytes "/metrics";
    })

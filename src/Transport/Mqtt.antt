-- ===== src/Transport/Mqtt.antt =====
-- internal/transport/mqtt.go: the publisher that stands on the MQTT client library.
-- The client library, autopaho, and `url.Parse` are arguments; what is logged is left out.
pub mod Connection
use blackboxd.Prelude.{
  ℕ, zero, suc, ◌*◌, ◌/◌, ◌%◌, ◌^◌, Bool, true, false, not, ◌&&◌, ◌||◌, List, [], ◌∷◌, map, Option,
  none, some, Result, ok, err, ltb, leb, if◌then◌else◌,
}
use blackboxd.Prelude.Int.{ℤ, pos, negsuc}
use blackboxd.Bytes.{Bytes, bytes, equal}
use blackboxd.Security.Pin.{to_lower}
use blackboxd.Transport.Publisher.{Message}

-- A parsed URL: its scheme, and the rest as the library keeps it.
pub record Url : Type 0 where
  pub scheme : Bytes
  pub rest : Bytes

-- `MQTTPublisherConfig`; a nil `TLSConfig` is `none`, a duration is its nanoseconds.
pub record MqttPublisherConfig (Tls : Type 0) : Type 0 where
  pub broker_url : Bytes
  pub tls_config : Option Tls
  pub client_id : Bytes
  pub status_topic : Bytes
  pub offline_payload : Bytes
  pub online_payload : Bytes
  pub status_qos : ℕ
  pub status_retain : Bool
  pub keep_alive : ℤ
  pub connect_retry_delay : ℤ
  pub connect_timeout : ℤ

-- The fields of `autopaho.ClientConfig` that are set; the will is `SetWillMessage`, and the greeting
-- what `OnConnectionUp` publishes.
pub record ClientConfig (Tls : Type 0) : Type 0 where
  pub server_urls : List Url
  pub tls_cfg : Tls
  pub keep_alive : ℕ
  pub clean_start : Bool
  pub connect_retry_delay : ℤ
  pub connect_timeout : ℤ
  pub client_id : Bytes
  pub will : Option Message
  pub greeting : Option Message

-- What the library answers to `cm.Publish`: an error, or a response, which may be nil; a response
-- has a reason code.
pub data Answer : Type 0 where
  failed : Answer
  answered : Option ℕ → Answer

pub data MqttError : Type 0 where
  missing_fields bad_url no_scheme plaintext_scheme no_connection : MqttError
  not_connected publish_failed : MqttError
  refused : ℕ → MqttError

-- What the code takes from the libraries: `url.Parse`, `autopaho.NewConnection`, and what Go's
-- conversion of a negative float to `uint16` gives on the platform.
pub record Library (Tls Manager : Type 0) : Type 0 where
  pub parse_url : Bytes → Option Url
  pub new_connection : ClientConfig Tls → Option Manager
  pub uint16_of_negative : ℕ → ℕ

-- `normalizeBrokerURL`; the scheme is ASCII.
unfoldable pub normalize_scheme : Url → Bytes → Result MqttError Url
normalize_scheme u scheme =
    if equal scheme (bytes "tls") || (equal scheme (bytes "ssl") || equal scheme (bytes "mqtts"))
    then ok (record u { scheme = bytes "tls" })
    else if equal scheme []
    then err no_scheme
    else err plaintext_scheme

unfoldable pub normalize_broker_url : Option Url → Result MqttError Url
normalize_broker_url none = err bad_url
normalize_broker_url (some u) = normalize_scheme u (map to_lower u.scheme)

abbrev pub second : ℕ
second = 1000000000

-- `if cfg.F == 0 { cfg.F = ... }` on a duration.
unfoldable pub or_default_delay : ℕ → ℤ → ℤ
or_default_delay d (pos zero) = pos d
or_default_delay d (pos (suc n)) = pos (suc n)
or_default_delay d (negsuc n) = negsuc n

-- The clamp to the longest keep-alive of the protocol.
unfoldable pub clamp_keep_alive : ℤ → ℤ
clamp_keep_alive (pos n) = if ltb (65535 * second) n then pos (65535 * second) else pos n
clamp_keep_alive (negsuc n) = negsuc n

module _ {Tls Manager : Type 0} (lib : Library Tls Manager) where
  -- `uint16(cfg.KeepAlive.Seconds())`.
  unfoldable pub keep_alive_seconds : ℤ → ℕ
  keep_alive_seconds (pos n) = (n / second) % 2 ^ 16
  keep_alive_seconds (negsuc n) = lib.uint16_of_negative n

  -- A message on the status topic, if there are a topic and a payload.
  unfoldable pub status_message : MqttPublisherConfig Tls → Bytes → Option Message
  status_message cfg payload =
      if not (equal cfg.status_topic []) && not (equal payload [])
      then some (record {
        topic = cfg.status_topic;
        payload = payload;
        qos = cfg.status_qos;
        retain = cfg.status_retain;
      })
      else none

  -- `pcfg` of `NewMQTTPublisher`.
  unfoldable pub client_config : MqttPublisherConfig Tls → Tls → Url → ClientConfig Tls
  client_config cfg tls u = record {
    server_urls = u ∷ [];
    tls_cfg = tls;
    keep_alive =
        keep_alive_seconds (clamp_keep_alive (or_default_delay (30 * second) cfg.keep_alive));
    clean_start = true;
    connect_retry_delay = or_default_delay (10 * second) cfg.connect_retry_delay;
    connect_timeout = or_default_delay (10 * second) cfg.connect_timeout;
    client_id = cfg.client_id;
    will = status_message cfg cfg.offline_payload;
    greeting = status_message cfg cfg.online_payload;
  }

  -- `MQTTPublisher`; `cm` is nil until the connection is made.
  unfoldable pub made_connection : Option Manager → Result MqttError (Option Manager)
  made_connection none = err no_connection
  made_connection (some cm) = ok (some cm)

  unfoldable pub connect :
      MqttPublisherConfig Tls → Tls → Result MqttError Url → Result MqttError (Option Manager)
  connect cfg tls (err e) = err e
  connect cfg tls (ok u) = made_connection (lib.new_connection (client_config cfg tls u))

  -- `NewMQTTPublisher`, up to the nil `TLSConfig`, and the whole.
  unfoldable pub new_with_tls :
      MqttPublisherConfig Tls → Option Tls → Result MqttError (Option Manager)
  new_with_tls cfg none = err missing_fields
  new_with_tls cfg (some tls) =
      if equal cfg.broker_url [] || equal cfg.client_id []
      then err missing_fields
      else connect cfg tls (normalize_broker_url (lib.parse_url cfg.broker_url))

  unfoldable pub new_mqtt_publisher : MqttPublisherConfig Tls → Result MqttError (Option Manager)
  new_mqtt_publisher cfg = new_with_tls cfg cfg.tls_config

-- What `Publish` makes of the library's answer.
unfoldable pub judge : Answer → Result MqttError (Unit {0})
judge failed = err publish_failed
judge (answered none) = ok tt
judge (answered (some reason)) = if leb 128 reason then err (refused reason) else ok tt

-- `Publish`, with the message that it hands to the library.
unfoldable pub mqtt_publish :
    {Manager : Type 0}
    → Option Manager
    → Message
    → (Manager → Message → Answer)
    → Result MqttError (Unit {0})
mqtt_publish none m send = err not_connected
mqtt_publish (some cm) m send = judge (send cm m)

-- `Close` and `AwaitConnection`; `none` is nil.
unfoldable pub mqtt_close : {Manager E : Type 0} → Option Manager → (Manager → Option E) → Option E
mqtt_close none disconnect = none
mqtt_close (some cm) disconnect = disconnect cm

unfoldable pub await_connection :
    {Manager : Type 0}
    → Option Manager
    → (Manager → Result MqttError (Unit {0}))
    → Result MqttError (Unit {0})
await_connection none await = err not_connected
await_connection (some cm) await = await cm

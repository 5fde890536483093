-- ===== src/Tests/Mqtt.antt =====
-- The MQTT publisher of internal/transport/mqtt.go at fixed inputs.
use blackboxd.Prelude.{ℕ, ◌≡◌, ◌↔◌, refl, true, false, some, ok}
use blackboxd.Prelude.Int.{pos}
use blackboxd.Bytes.{bytes, equal}
use blackboxd.Security.Pin.{to_lower}
use blackboxd.Transport.Publisher.{Message}
use blackboxd.Transport.Mqtt.{
  MqttPublisherConfig, Library, Answer, answered, new_mqtt_publisher, new_with_tls, connect,
  made_connection, normalize_broker_url, normalize_scheme, mqtt_publish,
}
use blackboxd.Transport.Mqtt.Connection.{
  IsConnected, new_mqtt_publisher-IsConnected, IsAcked, mqtt_publish_iff,
}

-- A library that connects to everything, and takes every URL for one with the scheme SSL.
abbrev library : Library ℕ ℕ
library = record {
  parse_url = λ raw. some (record { scheme = bytes "SSL"; rest = raw });
  new_connection = λ cfg. some 7;
  uint16_of_negative = λ n. 0;
}

abbrev publisher_config : MqttPublisherConfig ℕ
publisher_config = record {
  broker_url = bytes "SSL://broker:8883";
  tls_config = some 3;
  client_id = bytes "acme-dev-1";
  status_topic = bytes "status";
  offline_payload = bytes "off";
  online_payload = bytes "on";
  status_qos = 1;
  status_retain = true;
  keep_alive = pos 0;
  connect_retry_delay = pos 0;
  connect_timeout = pos 0;
}

new_mqtt_publisher-IsConnected_example : IsConnected library publisher_config (some 7)
unfolding new_mqtt_publisher new_with_tls connect made_connection normalize_broker_url
    normalize_scheme to_lower equal
new_mqtt_publisher-IsConnected_example =
    new_mqtt_publisher-IsConnected library publisher_config (some 7) refl

abbrev hello : Message
hello = record { topic = bytes "logs"; payload = bytes "hello"; qos = 1; retain = false }

abbrev refuses : ℕ → Message → Answer
refuses cm m = answered (some 135)

mqtt_publish_iff_example :
    (mqtt_publish (some 7) hello refuses ≡ ok tt) ↔ IsAcked (some 7) (λ cm. refuses cm hello)
mqtt_publish_iff_example = mqtt_publish_iff (some 7) hello refuses

-- ===== src/Transport/Mqtt/Connection.antt =====
-- What `NewMQTTPublisher` connects to, and when `Publish` returns nil, for internal/transport/mqtt.go.
use blackboxd.Prelude.{
  ℕ, zero, suc, ◌*◌, ◌/◌, ◌<◌, min, ◌≡◌, ◌≢◌, ◌↔◌, ◌⊎◌, refl, ap, sym, subst, inl, inr, Bool, true,
  ◌||◌, [], ◌∷◌, ◌++◌, map, Option, none, some, ok, ok_unique, ok_or_err, ltb, leb, ◌==◌,
  if◌then◌else◌, Bool-cases, Result-cases, arith,
}
use blackboxd.Prelude.Int.{pos}
use blackboxd.Bytes.{Bytes, bytes, equal}
use blackboxd.Bytes.Laws.{equal_iff, Lacks}
use blackboxd.Security.Pin.{to_lower}
use blackboxd.Config.Validate.{is_secure_broker}
use blackboxd.Config.Validate.Connection.{IsSecureBroker-iff}
use blackboxd.Transport.Publisher.{Message}
use blackboxd.Transport.Mqtt.{
  Url, MqttPublisherConfig, ClientConfig, Answer, failed, answered, missing_fields, no_scheme,
  plaintext_scheme, no_connection, refused, Library, normalize_scheme, normalize_broker_url, second,
  or_default_delay, clamp_keep_alive, keep_alive_seconds, client_config, made_connection, connect,
  new_with_tls, new_mqtt_publisher, judge, mqtt_publish,
}

-- One of the schemes that mean TLS, in any case.
abbrev pub IsTlsScheme : Bytes → Type 0
IsTlsScheme scheme = (scheme ≡ bytes "tls") ⊎ ((scheme ≡ bytes "ssl") ⊎ (scheme ≡ bytes "mqtts"))

-- The URL with the scheme that the client library knows.
abbrev pub over_tls : Url → Url
over_tls u = record u { scheme = bytes "tls" }

tls_test : Bytes → Bool
tls_test scheme =
    equal scheme (bytes "tls") || (equal scheme (bytes "ssl") || equal scheme (bytes "mqtts"))

IsTlsScheme-iff : (scheme : Bytes) → (tls_test scheme ≡ true) ↔ IsTlsScheme scheme
unfolding tls_test
IsTlsScheme-iff scheme = ground (
  arith,
  equal_iff scheme (bytes "tls"),
  equal_iff scheme (bytes "ssl"),
  equal_iff scheme (bytes "mqtts"),
)

normalize_scheme-ok :
    (u : Url) (scheme : Bytes) {v : Url}
    → normalize_scheme u scheme ≡ ok v
    → (v ≡ over_tls u) × IsTlsScheme scheme
unfolding normalize_scheme tls_test
normalize_scheme-ok u scheme {v} h = elim (Bool-cases (tls_test scheme)) [
  | inl tls ↦ (
    sym (ok_unique {r = normalize_scheme u scheme} (rw tls refl) h),
    (IsTlsScheme-iff scheme).0 tls,
  )
  | inr other ↦ elim (Bool-cases (equal scheme [])) [
    | inl empty ↦
        absurd
          (ok_or_err {r = normalize_scheme u scheme} {e = no_scheme} (rw (other, empty) refl) h)
    | inr some' ↦ absurd (
        ok_or_err {r = normalize_scheme u scheme} {e = plaintext_scheme} (rw (other, some') refl) h)
  ]
]

normalize_scheme_of_IsTlsScheme :
    (u : Url) (scheme : Bytes) → IsTlsScheme scheme → normalize_scheme u scheme ≡ ok (over_tls u)
unfolding normalize_scheme tls_test
normalize_scheme_of_IsTlsScheme u scheme h = rw ((IsTlsScheme-iff scheme).1 h) refl

-- What `url.Parse` does: the scheme is what stands before the first colon, in lower case.
abbrev pub ReadsScheme : Bytes → Url → Type 0
ReadsScheme raw u =
    (scheme rest : Bytes)
    → raw ≡ scheme ++ (b':' ∷ rest)
    → Lacks b':' scheme
    → u.scheme ≡ map to_lower scheme

module _ {Tls Manager : Type 0} (lib : Library Tls Manager) where
  -- The keep-alive in seconds, for a duration that is not negative: 30 where it is zero, else cut
  -- to seconds, and to the largest of the protocol.
  pub keep_alive_in_range :
      (n : ℕ)
      → keep_alive_seconds lib (clamp_keep_alive (or_default_delay (30 * second) (pos n)))
        ≡ (if n == 0 then 30 else min (n / second) 65535)
  unfolding keep_alive_seconds clamp_keep_alive or_default_delay
  keep_alive_in_range zero = refl
  keep_alive_in_range (suc n) = elim (Bool-cases (ltb (65535 * second) (suc n))) [
    | inl long ↦ rw long (ground arith)
    | inr short ↦ rw short (ground arith)
  ]

  -- A publisher that was made: there are a TLS configuration and a client id, the broker's URL has a
  -- scheme of TLS, and the library has made a connection over TLS to it with them.
  pub record IsConnected (cfg : MqttPublisherConfig Tls) (made : Option Manager) : Type 0 where
    pub tls : Tls
    pub url : Url
    pub manager : Manager
    pub with_tls : cfg.tls_config ≡ some tls
    pub named : cfg.client_id ≢ []
    pub parsed : lib.parse_url cfg.broker_url ≡ some url
    pub secure : IsTlsScheme (map to_lower url.scheme)
    pub config : ClientConfig Tls
    pub broker_is : config.server_urls ≡ over_tls url ∷ []
    pub tls_is : config.tls_cfg ≡ tls
    pub id_is : config.client_id ≡ cfg.client_id
    pub clean : config.clean_start ≡ true
    pub connected : lib.new_connection config ≡ some manager
    pub made_is : made ≡ some manager

  module _ (cfg : MqttPublisherConfig Tls) (made : Option Manager) (tls : Tls)
      (with_tls : cfg.tls_config ≡ some tls) (named : cfg.client_id ≢ []) where
    connect-IsConnected :
        (url : Url) (o : Option Manager)
        → lib.parse_url cfg.broker_url ≡ some url
        → IsTlsScheme (map to_lower url.scheme)
        → lib.new_connection (client_config lib cfg tls (over_tls url)) ≡ o
        → connect lib cfg tls (ok (over_tls url)) ≡ ok made
        → IsConnected cfg made
    unfolding connect made_connection client_config
    connect-IsConnected url none parsed secure connected h =
        absurd (ok_or_err {e = no_connection} (ap (made_connection lib) connected) h)
    connect-IsConnected url (some cm) parsed secure connected h = record {
      tls = tls;
      url = url;
      manager = cm;
      with_tls = with_tls;
      named = named;
      parsed = parsed;
      secure = secure;
      config = client_config lib cfg tls (over_tls url);
      broker_is = refl;
      tls_is = refl;
      id_is = refl;
      clean = refl;
      connected = connected;
      made_is = sym (ok_unique (ap (made_connection lib) connected) h);
    }

    parsed-IsConnected :
        (o : Option Url)
        → lib.parse_url cfg.broker_url ≡ o
        → connect lib cfg tls (normalize_broker_url o) ≡ ok made
        → IsConnected cfg made
    unfolding normalize_broker_url connect
    parsed-IsConnected none parsed h = absurd (cc)
    parsed-IsConnected (some url) parsed h =
        elim (Result-cases (normalize_scheme url (map to_lower url.scheme))) [
          | inl (u, good) ↦
              let (same, secure) = normalize_scheme-ok url (map to_lower url.scheme) good in
              connect-IsConnected url _ parsed secure refl (rw (good, same) at h)
          | inr (why, bad) ↦ absurd (ok_or_err {e = why} (ap (connect lib cfg tls) bad) h)
        ]

  new_with_tls-IsConnected :
      (cfg : MqttPublisherConfig Tls) (made : Option Manager) (o : Option Tls)
      → cfg.tls_config ≡ o
      → new_with_tls lib cfg o ≡ ok made
      → IsConnected cfg made
  unfolding new_with_tls
  new_with_tls-IsConnected cfg made none e h = absurd (cc)
  new_with_tls-IsConnected cfg made (some tls) e h =
      elim (Bool-cases (equal cfg.broker_url [] || equal cfg.client_id [])) [
        | inl lacks ↦ absurd (ok_or_err {e = missing_fields} (rw lacks refl) h)
        | inr given ↦
            let named : cfg.client_id ≢ [] = ground (arith, equal_iff cfg.client_id []) in
            parsed-IsConnected cfg made tls e named (lib.parse_url cfg.broker_url) refl
              (rw given at h)
      ]

  -- A publisher that NewMQTTPublisher returns was given a TLS configuration, a client id and a
  -- broker URL whose scheme is tls, ssl or mqtts in any case, and has a connection that the client
  -- library made from a configuration with a clean start, that TLS configuration, that client id
  -- and one server, the URL under the scheme tls.
  pub new_mqtt_publisher-IsConnected :
      (cfg : MqttPublisherConfig Tls) (made : Option Manager)
      → new_mqtt_publisher lib cfg ≡ ok made
      → IsConnected cfg made
  unfolding new_mqtt_publisher
  new_mqtt_publisher-IsConnected cfg made h =
      new_with_tls-IsConnected cfg made cfg.tls_config refl h

  normalize_known :
      (raw : Bytes) (u : Url) (scheme : Bytes)
      → lib.parse_url raw ≡ some u
      → u.scheme ≡ scheme
      → IsTlsScheme (map to_lower scheme)
      → normalize_broker_url (lib.parse_url raw) ≡ ok (over_tls u)
  unfolding normalize_broker_url
  normalize_known raw u scheme parsed here tls = rw parsed (
      normalize_scheme_of_IsTlsScheme u (map to_lower u.scheme)
        (subst (λ s. IsTlsScheme (map to_lower s)) (sym here) tls))

  -- A broker URL that the validation of the configuration accepts is not refused for its scheme,
  -- where the parser of URLs finds the scheme that stands before the first colon, in lower case.
  pub secure_broker_accepted :
      (raw : Bytes) (u : Url)
      → is_secure_broker raw ≡ true
      → lib.parse_url raw ≡ some u
      → ReadsScheme raw u
      → normalize_broker_url (lib.parse_url raw) ≡ ok (over_tls u)
  unfolding to_lower
  secure_broker_accepted raw u secure parsed reads = elim ((IsSecureBroker-iff raw).0 secure) [
    | inl (rest, e) ↦
        normalize_known raw u _ parsed (reads (bytes "tls") _ e (refl, (refl, (refl, tt))))
          (inl refl)
    | inr (inl (rest, e)) ↦
        normalize_known raw u _ parsed (reads (bytes "ssl") _ e (refl, (refl, (refl, tt))))
          (inr (inl refl))
    | inr (inr (rest, e)) ↦
        normalize_known raw u _ parsed
          (reads (bytes "mqtts") _ e (refl, (refl, (refl, (refl, (refl, tt)))))) (inr (inr refl))
  ]

-- An answer that is no refusal: no error, and a reason code below 128 if there is one.
abbrev pub IsAck : Answer → Type 0
IsAck failed = ⊥
IsAck (answered none) = Unit {0}
IsAck (answered (some reason)) = reason < 128

judge_iff : (a : Answer) → (judge a ≡ ok tt) ↔ IsAck a
unfolding judge
judge_iff failed = (λ h. absurd (cc), λ h. absurd h)
judge_iff (answered none) = (λ h. tt, λ h. refl)
judge_iff (answered (some reason)) = elim (Bool-cases (leb 128 reason)) [
  | inl refusal ↦ (
    λ h.
        absurd
          (ok_or_err {r = judge (answered (some reason))} {e = refused reason} (rw refusal refl) h),
    λ h. absurd (ground arith),
  )
  | inr ack ↦ (λ h. ground arith, λ h. rw ack refl)
]

abbrev pub IsAcked : {Manager : Type 0} → Option Manager → (Manager → Answer) → Type 0
IsAcked none send = ⊥
IsAcked (some cm) send = IsAck (send cm)

-- Publish returns nil exactly if there is a connection and the client library answers to the
-- message without an error and without a reason code of 128 or more.
pub mqtt_publish_iff :
    {Manager : Type 0} (o : Option Manager) (m : Message) (send : Manager → Message → Answer)
    → (mqtt_publish o m send ≡ ok tt) ↔ IsAcked o (λ cm. send cm m)
unfolding mqtt_publish
mqtt_publish_iff none m send = (λ h. absurd (cc), λ h. absurd h)
mqtt_publish_iff (some cm) m send = judge_iff (send cm m)

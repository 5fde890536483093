-- ===== src/Config/Validate/Connection.antt =====
-- The transport settings that `validateTransport` accepts.
use blackboxd.Prelude.{
  ℕ, ◌≤◌, ◌≡◌, ◌≢◌, ◌↔◌, ◌⊎◌, inl, inr, refl, Bool, true, false, not, ◌||◌, [], ◌++◌, Option, none,
  some, Result, ok, err, ltb, if◌then◌else◌, test_iff, chain_iff, Bool-cases, arith,
}
use blackboxd.Bytes.{Bytes, bytes, equal}
use blackboxd.Bytes.Laws.{equal_iff}
use blackboxd.Security.Paths.{Insecure, is_abs, has_prefix_iff}
use blackboxd.Security.Paths.Canonical.{some_rooted}
use blackboxd.Security.Modes.{FileInfo, regular}
use blackboxd.Security.Modes.Owned.{IsOwned, check_key_mode_iff, is_regular_iff}
use blackboxd.Security.Pin.{parse_pin}
use blackboxd.Config.Schema.{TransportConfig}
use blackboxd.Config.Validate.{
  FileSystem, accepts, insecure, invalid, is_regular_file, validate_files, is_secure_broker,
  validate_transport, validate_pin,
}
use blackboxd.Config.Validate.Safe.{canonicalize_iff, nonempty_iff}

abbrev pub StartsWith : Bytes → Bytes → Type 0
StartsWith url scheme = (rest : Bytes) × (url ≡ scheme ++ rest)

-- One of the schemes with TLS.
abbrev pub IsSecureBroker : Bytes → Type 0
IsSecureBroker url =
    StartsWith url (bytes "tls://")
    ⊎ (StartsWith url (bytes "ssl://") ⊎ StartsWith url (bytes "mqtts://"))

-- A regular file is there, behind any links.
abbrev pub IsFile : Option FileInfo → Type 0
IsFile found = (info : FileInfo) × (found ≡ some info) × (info.kind ≡ regular)

abbrev pub AreFiles : FileSystem → TransportConfig → Type 0
AreFiles fs t =
    IsOwned regular 384 fs.euid (fs.lstat t.client_key)
    × (IsFile (fs.stat t.client_cert) × IsFile (fs.stat t.ca_cert))

abbrev pub IsPin : Bytes → Type 0
IsPin pin = (pin ≡ []) ⊎ ((b : Bytes) × (parse_pin pin ≡ ok b))

pub record IsTransport (fs : FileSystem) (skip : Bool) (t : TransportConfig) : Type 0 where
  pub broker : IsSecureBroker t.mqtt_broker
  pub client_cert : is_abs t.client_cert ≡ true
  pub client_key : is_abs t.client_key ≡ true
  pub ca_cert : is_abs t.ca_cert ≡ true
  pub qos_logs : t.qos_logs ≤ 2
  pub qos_heartbeat : t.qos_heartbeat ≤ 2
  pub files : (skip ≡ true) ⊎ AreFiles fs t
  pub pin : IsPin t.broker_cert_pin

pub IsSecureBroker-iff : (url : Bytes) → (is_secure_broker url ≡ true) ↔ IsSecureBroker url
unfolding is_secure_broker
IsSecureBroker-iff url = ground (
  arith,
  has_prefix_iff url (bytes "tls://"),
  has_prefix_iff url (bytes "ssl://"),
  has_prefix_iff url (bytes "mqtts://"),
)

regular-IsFile_iff : (found : Option FileInfo) → (is_regular_file found ≡ true) ↔ IsFile found
unfolding is_regular_file
regular-IsFile_iff none = (λ h. absurd (cc), λ h. absurd (ground (arith, h.1)))
regular-IsFile_iff (some info) =
    let (there, back) = is_regular_iff info.kind in
    (λ h. (info, refl, there h), λ h. back (ground (arith, h.1, h.2)))

files_iff : (fs : FileSystem) (t : TransportConfig) → (validate_files fs t ≡ ok tt) ↔ AreFiles fs t
unfolding validate_files
files_iff fs t =
    chain_iff _ _ (test_iff _ insecure (check_key_mode_iff fs.euid (fs.lstat t.client_key))) (
      chain_iff _ _ (test_iff _ invalid (regular-IsFile_iff (fs.stat t.client_cert)))
        (test_iff _ invalid (regular-IsFile_iff (fs.stat t.ca_cert))))

files_or_skip_iff :
    (fs : FileSystem) (skip : Bool) (t : TransportConfig)
    → ((if skip then ok tt else validate_files fs t) ≡ ok tt) ↔ ((skip ≡ true) ⊎ AreFiles fs t)
files_or_skip_iff fs true t = (λ h. inl refl, λ h. refl)
files_or_skip_iff fs false t =
    let (there, back) = files_iff fs t in
    (λ h. inr (there h), λ h. elim h [ inl e ↦ absurd (cc) | inr f ↦ back f ])

accepts_iff : {A : Type 0} (r : Result Insecure A) → (accepts r ≡ true) ↔ ((a : A) × (r ≡ ok a))
accepts_iff (ok a) = (λ h. (a, refl), λ h. refl)
accepts_iff (err e) = (λ h. absurd (cc), λ h. absurd (ground (arith, h.1)))

IsPin-iff : (pin : Bytes) → (validate_pin pin ≡ ok tt) ↔ IsPin pin
unfolding validate_pin
IsPin-iff pin = elim (Bool-cases (equal pin [])) [
  | inl e ↦ rw e (λ h. inl ((equal_iff pin []).0 e), λ h. refl)
  | inr ne ↦
      let (there, back) = test_iff _ insecure (accepts_iff (parse_pin pin)) in
      rw ne (
        λ h. inr (there h),
        λ h. elim h [ inl e ↦ absurd (ground (arith, (equal_iff pin []).1 e)) | inr b ↦ back b ],
      )
]

names_iff :
    (a b c : Bytes)
    → (not (equal a [] || (equal b [] || equal c [])) ≡ true) ↔ ((a ≢ []) × ((b ≢ []) × (c ≢ [])))
names_iff a b c = ground (arith, equal_iff a [], equal_iff b [], equal_iff c [])

qos_iff : (a b : ℕ) → (not (ltb 2 a || ltb 2 b) ≡ true) ↔ ((a ≤ 2) × (b ≤ 2))
qos_iff a b = ground arith

rooted_some : (p : Bytes) → is_abs p ≡ true → p ≢ []
rooted_some p h = ground (arith, equal_iff p [], some_rooted p h)

secure_some : (url : Bytes) → IsSecureBroker url → url ≢ []
secure_some url h e = elim h [
  | inl s ↦ ground (arith, e, s.1)
  | inr (inl s) ↦ ground (arith, e, s.1)
  | inr (inr s) ↦ ground (arith, e, s.1)
]

pub IsTransport-iff :
    (fs : FileSystem) (skip : Bool) (t : TransportConfig)
    → (validate_transport fs skip t ≡ ok tt) ↔ IsTransport fs skip t
unfolding validate_transport
IsTransport-iff fs skip t =
    let (there, back) = chain_iff _ _ (test_iff _ invalid (nonempty_iff t.mqtt_broker)) (
      chain_iff _ _ (test_iff _ insecure (IsSecureBroker-iff t.mqtt_broker)) (
        chain_iff _ _ (test_iff _ insecure (names_iff t.client_cert t.client_key t.ca_cert)) (
          chain_iff _ _ (test_iff _ insecure (canonicalize_iff t.client_cert)) (
            chain_iff _ _ (test_iff _ insecure (canonicalize_iff t.client_key)) (
              chain_iff _ _ (test_iff _ insecure (canonicalize_iff t.ca_cert)) (
                chain_iff _ _ (test_iff _ invalid (qos_iff t.qos_logs t.qos_heartbeat)) (
                  chain_iff _ _ (files_or_skip_iff fs skip t)
                    (IsPin-iff t.broker_cert_pin)))))))) in
    (
      λ h.
          let (given, (broker, (names, (cert, (key, (ca, (qos, (files, pin)))))))) = there h in
          record {
            broker = broker;
            client_cert = cert;
            client_key = key;
            ca_cert = ca;
            qos_logs = qos.0;
            qos_heartbeat = qos.1;
            files = files;
            pin = pin;
          },
      λ h. back (
        secure_some t.mqtt_broker h.broker,
        (
          h.broker,
          (
            (
              rooted_some t.client_cert h.client_cert,
              (rooted_some t.client_key h.client_key, rooted_some t.ca_cert h.ca_cert),
            ),
            (
              h.client_cert,
              (h.client_key, (h.ca_cert, ((h.qos_logs, h.qos_heartbeat), (h.files, h.pin)))),
            ),
          ),
        ),
      ),
    )

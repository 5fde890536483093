-- ===== src/Security/Tls.antt =====
-- internal/security/tls.go, with `MatchPin` of pin.go: the TLS settings of the connection to the broker.
-- The packages crypto/x509, crypto/tls and crypto/sha256 are arguments, as is the reading of a file.
-- A certificate is its DER form, `cert.Raw`.
pub mod Pinned
pub mod Handshake
use blackboxd.Prelude.{
  ℕ, Bool, true, false, ◌||◌, List, [], ◌∷◌, map, Option, none, some, Result, ok, err,
  if◌then◌else◌,
}
use blackboxd.Bytes.{Bytes, equal}
use blackboxd.Security.Pin.{parse_pin}

-- `os.ReadFile`, `CertPool.AppendCertsFromPEM` on an empty pool, `tls.X509KeyPair` and `sha256.Sum256`.
pub record Crypto (Pool KeyPair : Type 0) : Type 0 where
  pub read_file : Bytes → Option Bytes
  pub pool_of_pem : Bytes → Option Pool
  pub key_pair : Bytes → Bytes → Option KeyPair
  pub sha256 : Bytes → Bytes

-- `TLSOptions`.
pub record TlsOptions : Type 0 where
  pub ca_cert_path : Bytes
  pub client_cert_path : Bytes
  pub client_key_path : Bytes
  pub broker_cert_pin : Bytes
  pub server_name : Bytes

-- What is refused, each time with `ErrInsecure`.
pub data TlsError : Type 0 where
  paths_incomplete unreadable no_certificates bad_key_pair bad_pin : TlsError
  no_peer_certificate fingerprint_mismatch : TlsError

-- `tls.VersionTLS12`.
abbrev pub version_tls12 : ℕ
version_tls12 = 771

-- What a handshake is asked after the chain was verified, given the peer's certificates.
abbrev pub Verifier : Type 0
Verifier = List Bytes → Result TlsError (Unit {0})

-- The fields of `tls.Config` that are set; `InsecureSkipVerify` is not among them.
pub record ClientTls (Pool KeyPair : Type 0) : Type 0 where
  pub min_version : ℕ
  pub root_cas : Pool
  pub certificates : List KeyPair
  pub server_name : Bytes
  pub verify_connection : Option Verifier

module _ {Pool KeyPair : Type 0} (crypto : Crypto Pool KeyPair) where
  -- `MatchPin`: `subtle.ConstantTimeCompare` tells whether two slices have the same bytes.
  unfoldable pub match_pin : Bytes → Bytes → Bool
  match_pin cert want = equal (crypto.sha256 cert) want

  -- `pinVerifier`.
  unfoldable pub pin_verifier : Bytes → Verifier
  pin_verifier want [] = err no_peer_certificate
  pin_verifier want (leaf ∷ chain) = if match_pin leaf want then ok tt else err fingerprint_mismatch

  -- The last part of `BuildClientTLS`: the optional pin.
  unfoldable pub with_pin :
      Bytes → ClientTls Pool KeyPair → Result TlsError (ClientTls Pool KeyPair)
  with_pin pin c = if equal pin [] then ok c else elim (parse_pin pin) [
    | ok want ↦ ok (record c { verify_connection = some (pin_verifier want) })
    | err e ↦ err bad_pin
  ]

  unfoldable pub with_key_pair :
      TlsOptions → Pool → Option KeyPair → Result TlsError (ClientTls Pool KeyPair)
  with_key_pair opt pool none = err bad_key_pair
  with_key_pair opt pool (some pair) = with_pin opt.broker_cert_pin (record {
    min_version = version_tls12;
    root_cas = pool;
    certificates = pair ∷ [];
    server_name = opt.server_name;
    verify_connection = none;
  })

-- `zero`.
unfoldable pub zero_buffer : Bytes → Bytes
zero_buffer [] = []
zero_buffer (b ∷ bs) = 0 ∷ zero_buffer bs

-- A result, and the buffers that were read, as the deferred calls of `zero` leave them.
abbrev pub Scrubbed : Type 0 → Type 0
Scrubbed A = Result TlsError A × List Bytes

-- The rest of the function runs behind `defer zero(buf)`.
abbrev pub deferring : {A : Type 0} → Bytes → Scrubbed A → Scrubbed A
deferring buf (r, bufs) = (r, zero_buffer buf ∷ bufs)

module _ {Pool KeyPair : Type 0} (crypto : Crypto Pool KeyPair) where
  unfoldable pub with_key :
      TlsOptions → Pool → Bytes → Option Bytes → Scrubbed (ClientTls Pool KeyPair)
  with_key opt pool cert_pem none = (err unreadable, [])
  with_key opt pool cert_pem (some key_pem) =
      deferring key_pem (with_key_pair crypto opt pool (crypto.key_pair cert_pem key_pem), [])

  unfoldable pub with_cert : TlsOptions → Pool → Option Bytes → Scrubbed (ClientTls Pool KeyPair)
  with_cert opt pool none = (err unreadable, [])
  with_cert opt pool (some cert_pem) =
      deferring cert_pem (with_key opt pool cert_pem (crypto.read_file opt.client_key_path))

  unfoldable pub with_pool : TlsOptions → Option Pool → Scrubbed (ClientTls Pool KeyPair)
  with_pool opt none = (err no_certificates, [])
  with_pool opt (some pool) = with_cert opt pool (crypto.read_file opt.client_cert_path)

  unfoldable pub with_ca : TlsOptions → Option Bytes → Scrubbed (ClientTls Pool KeyPair)
  with_ca opt none = (err unreadable, [])
  with_ca opt (some ca_pem) = deferring ca_pem (with_pool opt (crypto.pool_of_pem ca_pem))

  -- `BuildClientTLS`.
  unfoldable pub build_client_tls : TlsOptions → Scrubbed (ClientTls Pool KeyPair)
  build_client_tls opt =
      if equal opt.ca_cert_path []
        || (equal opt.client_cert_path [] || equal opt.client_key_path [])
      then (err paths_incomplete, [])
      else with_ca opt (crypto.read_file opt.ca_cert_path)

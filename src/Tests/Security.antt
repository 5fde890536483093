-- ===== src/Tests/Security.antt =====
-- The checks of internal/security at fixed inputs.
use blackboxd.Security.Tls.{
  with_ca, with_pool, with_cert, with_key, with_key_pair, with_pin, Verifier, Crypto, TlsOptions,
  ClientTls, build_client_tls, version_tls12, pin_verifier,
}
use blackboxd.Security.Tls.Pinned.{IsClientTls, HasLeaf, build_client_tls-IsClientTls}
use blackboxd.Security.Tls.Handshake.{build_client_tls-HasLeaf}
use blackboxd.Prelude.{List, some, ◌≡◌, ◌↔◌, refl, true, [], ◌∷◌, ok, replicate, arith}
use blackboxd.Bytes.{Bytes, bytes, split, equal}
use blackboxd.Security.Paths.Canonical.{IsCanonical, canonicalize_path-IsCanonical}
use blackboxd.Security.Paths.{
  canonicalize_path, has_dot_dot, clean, is_abs, join_segments, add_segments, add_segment,
  take_back, check_under_allowlist, IsAllowed, check_under_allowlist_iff,
}
use blackboxd.Security.Pin.{fingerprint, parse_pin-fingerprint}

clean_test : clean (bytes "/var//log/./x/../messages") ≡ bytes "/var/log/messages"
unfolding clean is_abs join_segments add_segments split add_segment equal take_back
clean_test = refl

check_under_allowlist_iff_example :
    (check_under_allowlist (bytes "/var/log/messages") (bytes "/var/log" ∷ []) ≡ true)
    ↔ IsAllowed (bytes "/var/log/messages") (bytes "/var/log" ∷ [])
check_under_allowlist_iff_example =
    check_under_allowlist_iff (bytes "/var/log/messages") (bytes "/var/log" ∷ [])

canonicalizes :
    canonicalize_path (bytes "/var//log/./x/../messages") ≡ ok (bytes "/var/log/messages")
unfolding canonicalize_path has_dot_dot clean is_abs join_segments add_segments split add_segment
    equal take_back
canonicalizes = refl

canonicalize_path-IsCanonical_example : IsCanonical (bytes "/var/log/messages")
canonicalize_path-IsCanonical_example =
    canonicalize_path-IsCanonical (bytes "/var//log/./x/../messages") (bytes "/var/log/messages")
      canonicalizes

-- Files that hold their names, whose certificates have the digest of 32 bytes 171.
abbrev digest : Bytes
digest = replicate 32 171

abbrev crypto : Crypto Bytes (Bytes × Bytes)
crypto = record {
  read_file = λ path. some path;
  pool_of_pem = λ pem. some pem;
  key_pair = λ cert key. some (cert, key);
  sha256 = λ cert. digest;
}

abbrev options : TlsOptions
options = record {
  ca_cert_path = bytes "/ca.pem";
  client_cert_path = bytes "/cert.pem";
  client_key_path = bytes "/key.pem";
  broker_cert_pin = fingerprint digest;
  server_name = bytes "broker";
}

abbrev client : ClientTls Bytes (Bytes × Bytes)
client = record {
  min_version = version_tls12;
  root_cas = bytes "/ca.pem";
  certificates = (bytes "/cert.pem", bytes "/key.pem") ∷ [];
  server_name = bytes "broker";
  verify_connection = some (pin_verifier crypto digest);
}

builds : (build_client_tls crypto options).0 ≡ ok client
unfolding build_client_tls with_ca with_pool with_cert with_key with_key_pair with_pin equal
builds = rw (parse_pin-fingerprint digest (ground arith) refl) refl

build_client_tls-IsClientTls_example : IsClientTls crypto options client
build_client_tls-IsClientTls_example = build_client_tls-IsClientTls crypto options client builds

build_client_tls-HasLeaf_example :
    (verify : Verifier) × (client.verify_connection ≡ some verify)
    × ((certs : List Bytes) → (verify certs ≡ ok tt) ↔ HasLeaf crypto digest certs)
build_client_tls-HasLeaf_example =
    build_client_tls-HasLeaf crypto options digest client (ground arith) refl refl builds

-- ===== src/Security/Tls/Pinned.antt =====
-- What a TLS configuration of internal/security/tls.go demands of the broker.
use blackboxd.Prelude.{
  ◌≡◌, ◌↔◌, refl, subst, inl, inr, ◌||◌, List, [], ◌∷◌, Option, none, some, ok, Bool-cases,
  Result-cases, ok_unique, ok_or_err, arith,
}
use blackboxd.Bytes.{Bytes, equal}
use blackboxd.Bytes.Laws.{equal_iff}
use blackboxd.Security.Pin.{parse_pin}
use blackboxd.Security.Tls.{
  Crypto, TlsOptions, bad_pin, paths_incomplete, ClientTls, Verifier, version_tls12, match_pin,
  pin_verifier, with_pin, with_key_pair, with_key, with_cert, with_pool, with_ca, build_client_tls,
}

module _ {Pool KeyPair : Type 0} (crypto : Crypto Pool KeyPair) where
  -- The peer's leaf certificate is there and has this fingerprint.
  abbrev pub HasLeaf : Bytes → List Bytes → Type 0
  HasLeaf want [] = ⊥
  HasLeaf want (leaf ∷ chain) = crypto.sha256 leaf ≡ want

  pub HasLeaf-iff :
      (want : Bytes) (certs : List Bytes)
      → (pin_verifier crypto want certs ≡ ok tt) ↔ HasLeaf want certs
  unfolding pin_verifier match_pin
  HasLeaf-iff want [] = (λ h. absurd (cc), λ h. absurd h)
  HasLeaf-iff want (leaf ∷ chain) = ground (arith, equal_iff (crypto.sha256 leaf) want)

  -- The check of the peer's certificates: none without a pin, else that of the pinned fingerprint.
  abbrev pub IsPinned : Bytes → Option Verifier → Type 0
  IsPinned pin none = pin ≡ []
  IsPinned pin (some verify) =
      (want : Bytes) × (parse_pin pin ≡ ok want)
      × ((certs : List Bytes) → (verify certs ≡ ok tt) ↔ HasLeaf want certs)

  -- What a configuration is made of: the certificates of the three files, the server's name, TLS 1.2
  -- at least; and the check of a pin, if there is one.
  pub record IsClientTls (opt : TlsOptions) (c : ClientTls Pool KeyPair) : Type 0 where
    pub ca_pem : Bytes
    pub cert_pem : Bytes
    pub key_pem : Bytes
    pub pair : KeyPair
    pub ca_read : crypto.read_file opt.ca_cert_path ≡ some ca_pem
    pub cert_read : crypto.read_file opt.client_cert_path ≡ some cert_pem
    pub key_read : crypto.read_file opt.client_key_path ≡ some key_pem
    pub roots : crypto.pool_of_pem ca_pem ≡ some c.root_cas
    pub paired : crypto.key_pair cert_pem key_pem ≡ some pair
    pub presents : c.certificates ≡ pair ∷ []
    pub at_least : c.min_version ≡ version_tls12
    pub named : c.server_name ≡ opt.server_name
    pub pinned : IsPinned opt.broker_cert_pin c.verify_connection

  -- The parts that `with_pin` leaves alone, and the one that it sets.
  record PinAdded (pin : Bytes) (base c : ClientTls Pool KeyPair) : Type 0 where
    same_version : c.min_version ≡ base.min_version
    same_roots : c.root_cas ≡ base.root_cas
    same_certificates : c.certificates ≡ base.certificates
    same_name : c.server_name ≡ base.server_name
    added : IsPinned pin c.verify_connection

  with_pin-PinAdded :
      (pin : Bytes) (base : ClientTls Pool KeyPair) {c : ClientTls Pool KeyPair}
      → base.verify_connection ≡ none
      → with_pin crypto pin base ≡ ok c
      → PinAdded pin base c
  unfolding with_pin
  with_pin-PinAdded pin base {c} fresh h = elim (Bool-cases (equal pin [])) [
    | inl empty ↦
        let same : base ≡ c = ok_unique (rw (with_pin, empty) refl) h in
        subst (PinAdded pin base) same (record {
          same_version = refl;
          same_roots = refl;
          same_certificates = refl;
          same_name = refl;
          added = rw fresh ((equal_iff pin []).0 empty);
        })
    | inr pinned ↦ elim (Result-cases (parse_pin pin)) [
      | inl (want, parsed) ↦
          let checked = record base { verify_connection = some (pin_verifier crypto want) } in
          let same : checked ≡ c = ok_unique (rw (with_pin, pinned, parsed) refl) h in
          subst (PinAdded pin base) same (record {
            same_version = refl;
            same_roots = refl;
            same_certificates = refl;
            same_name = refl;
            added = (want, parsed, HasLeaf-iff want);
          })
      | inr (e, bad) ↦ absurd (ok_or_err {e = bad_pin} (rw (with_pin, pinned, bad) refl) h)
    ]
  ]

  -- The steps of the build, from the last one back to the first one.
  module _ (opt : TlsOptions) (c : ClientTls Pool KeyPair) (ca_pem : Bytes)
      (ca_read : crypto.read_file opt.ca_cert_path ≡ some ca_pem) where
    with_key_pair-IsClientTls :
        (pool : Pool) (cert_pem key_pem : Bytes) (o : Option KeyPair)
        → crypto.pool_of_pem ca_pem ≡ some pool
        → crypto.read_file opt.client_cert_path ≡ some cert_pem
        → crypto.read_file opt.client_key_path ≡ some key_pem
        → crypto.key_pair cert_pem key_pem ≡ o
        → with_key_pair crypto opt pool o ≡ ok c
        → IsClientTls opt c
    unfolding with_key_pair
    with_key_pair-IsClientTls pool cert_pem key_pem none roots cert_read key_read paired h =
        absurd (cc)
    with_key_pair-IsClientTls pool cert_pem key_pem (some pair) roots cert_read key_read paired h =
        let p = with_pin-PinAdded opt.broker_cert_pin _ refl h in
        record {
          ca_pem = ca_pem;
          cert_pem = cert_pem;
          key_pem = key_pem;
          pair = pair;
          ca_read = ca_read;
          cert_read = cert_read;
          key_read = key_read;
          roots = rw p.same_roots roots;
          paired = paired;
          presents = p.same_certificates;
          at_least = p.same_version;
          named = p.same_name;
          pinned = p.added;
        }

    with_key-IsClientTls :
        (pool : Pool) (cert_pem : Bytes) (o : Option Bytes)
        → crypto.pool_of_pem ca_pem ≡ some pool
        → crypto.read_file opt.client_cert_path ≡ some cert_pem
        → crypto.read_file opt.client_key_path ≡ o
        → (with_key crypto opt pool cert_pem o).0 ≡ ok c
        → IsClientTls opt c
    unfolding with_key
    with_key-IsClientTls pool cert_pem none roots cert_read key_read h = absurd (cc)
    with_key-IsClientTls pool cert_pem (some key_pem) roots cert_read key_read h =
        with_key_pair-IsClientTls pool cert_pem key_pem (crypto.key_pair cert_pem key_pem) roots
          cert_read key_read refl h

    with_cert-IsClientTls :
        (pool : Pool) (o : Option Bytes)
        → crypto.pool_of_pem ca_pem ≡ some pool
        → crypto.read_file opt.client_cert_path ≡ o
        → (with_cert crypto opt pool o).0 ≡ ok c
        → IsClientTls opt c
    unfolding with_cert
    with_cert-IsClientTls pool none roots cert_read h = absurd (cc)
    with_cert-IsClientTls pool (some cert_pem) roots cert_read h =
        with_key-IsClientTls pool cert_pem (crypto.read_file opt.client_key_path) roots cert_read
          refl h

    with_pool-IsClientTls :
        (o : Option Pool)
        → crypto.pool_of_pem ca_pem ≡ o
        → (with_pool crypto opt o).0 ≡ ok c
        → IsClientTls opt c
    unfolding with_pool
    with_pool-IsClientTls none roots h = absurd (cc)
    with_pool-IsClientTls (some pool) roots h =
        with_cert-IsClientTls pool (crypto.read_file opt.client_cert_path) roots refl h

  with_ca-IsClientTls :
      (opt : TlsOptions) (c : ClientTls Pool KeyPair) (o : Option Bytes)
      → crypto.read_file opt.ca_cert_path ≡ o
      → (with_ca crypto opt o).0 ≡ ok c
      → IsClientTls opt c
  unfolding with_ca
  with_ca-IsClientTls opt c none ca_read h = absurd (cc)
  with_ca-IsClientTls opt c (some ca_pem) ca_read h =
      with_pool-IsClientTls opt c ca_pem ca_read (crypto.pool_of_pem ca_pem) refl h

  -- A configuration that BuildClientTLS returns trusts the certificates of the CA file alone,
  -- presents the pair of the two client files, demands TLS 1.2 at least, has the name of the
  -- server, and has a check of the peer exactly if there is a pin, which then accepts a peer
  -- exactly if it presents a certificate and the first one has the pinned fingerprint.
  pub build_client_tls-IsClientTls :
      (opt : TlsOptions) (c : ClientTls Pool KeyPair)
      → (build_client_tls crypto opt).0 ≡ ok c
      → IsClientTls opt c
  unfolding build_client_tls
  build_client_tls-IsClientTls opt c h =
      elim (Bool-cases (
        equal opt.ca_cert_path []
        || (equal opt.client_cert_path [] || equal opt.client_key_path []))) [
          | inl incomplete ↦ absurd (ok_or_err {e = paths_incomplete} (rw incomplete refl) h)
          | inr complete ↦
              with_ca-IsClientTls opt c (crypto.read_file opt.ca_cert_path) refl (rw complete at h)
        ]

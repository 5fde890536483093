-- ===== src/Security/Tls/Handshake.antt =====
-- The handshake under a printed fingerprint, and the buffers that `BuildClientTLS` leaves behind, for
-- internal/security/tls.go.
use blackboxd.Prelude.{
  ◌<◌, ◌≡◌, ◌↔◌, refl, subst, inl, inr, ◌||◌, List, [], ◌∷◌, Option, none, some, ok, ok_unique,
  Bool-cases, All, length, arith,
}
use blackboxd.Bytes.{Bytes, equal}
use blackboxd.Security.Pin.{fingerprint, parse_pin-fingerprint}
use blackboxd.Security.Tls.{
  Crypto, TlsOptions, ClientTls, Verifier, zero_buffer, with_key, with_cert, with_pool, with_ca,
  build_client_tls,
}
use blackboxd.Security.Tls.Pinned.{HasLeaf, IsPinned, build_client_tls-IsClientTls}

abbrev pub AllZero : Bytes → Type 0
AllZero = All (λ b. b ≡ 0)

zero_buffer-AllZero : (b : Bytes) → AllZero (zero_buffer b)
unfolding zero_buffer
zero_buffer-AllZero [] = tt
zero_buffer-AllZero (x ∷ b) = (refl, zero_buffer-AllZero b)

module _ {Pool KeyPair : Type 0} (crypto : Crypto Pool KeyPair) (opt : TlsOptions) where
  with_key-AllZero :
      (pool : Pool) (cert_pem : Bytes) (o : Option Bytes)
      → All AllZero (with_key crypto opt pool cert_pem o).1
  unfolding with_key
  with_key-AllZero pool cert_pem none = tt
  with_key-AllZero pool cert_pem (some key_pem) = (zero_buffer-AllZero key_pem, tt)

  with_cert-AllZero : (pool : Pool) (o : Option Bytes) → All AllZero (with_cert crypto opt pool o).1
  unfolding with_cert
  with_cert-AllZero pool none = tt
  with_cert-AllZero pool (some cert_pem) =
      (zero_buffer-AllZero cert_pem, with_key-AllZero pool cert_pem _)

  with_pool-AllZero : (o : Option Pool) → All AllZero (with_pool crypto opt o).1
  unfolding with_pool
  with_pool-AllZero none = tt
  with_pool-AllZero (some pool) = with_cert-AllZero pool _

  with_ca-AllZero : (o : Option Bytes) → All AllZero (with_ca crypto opt o).1
  unfolding with_ca
  with_ca-AllZero none = tt
  with_ca-AllZero (some ca_pem) = (zero_buffer-AllZero ca_pem, with_pool-AllZero _)

  -- Whatever BuildClientTLS returns, at its return every buffer that it read a file into holds
  -- zeros alone.
  pub build_client_tls-AllZero : All AllZero (build_client_tls crypto opt).1
  unfolding build_client_tls
  build_client_tls-AllZero =
      elim (Bool-cases (
        equal opt.ca_cert_path []
        || (equal opt.client_cert_path [] || equal opt.client_key_path []))) [
          | inl incomplete ↦ rw incomplete tt
          | inr complete ↦ rw complete (with_ca-AllZero (crypto.read_file opt.ca_cert_path))
        ]

  fingerprint_pinned :
      (digest : Bytes) (o : Option Verifier)
      → All (λ b. b < 256) digest
      → length digest ≡ 32
      → IsPinned crypto (fingerprint digest) o
      → (verify : Verifier) × (o ≡ some verify)
        × ((certs : List Bytes) → (verify certs ≡ ok tt) ↔ HasLeaf crypto digest certs)
  fingerprint_pinned [] o small size h = absurd (omega arith)
  fingerprint_pinned (b ∷ []) o small size h = absurd (omega arith)
  fingerprint_pinned (b ∷ c ∷ bs) none small size h = absurd (cc)
  fingerprint_pinned (b ∷ c ∷ bs) (some verify) small size (want, parsed, checks) =
      let same : want ≡ b ∷ c ∷ bs =
        ok_unique parsed (parse_pin-fingerprint (b ∷ c ∷ bs) small size) in
      (
        verify,
        refl,
        subst (λ w. (certs : List Bytes) → (verify certs ≡ ok tt) ↔ HasLeaf crypto w certs) same
            checks,
      )

  -- If the pin is the printed form of a SHA-256 digest, upper-case hexadecimal with colons, a
  -- configuration that BuildClientTLS returns checks the certificates of the peer, and accepts
  -- them exactly if the first one is there and has this digest.
  pub build_client_tls-HasLeaf :
      (digest : Bytes) (c : ClientTls Pool KeyPair)
      → All (λ b. b < 256) digest
      → length digest ≡ 32
      → opt.broker_cert_pin ≡ fingerprint digest
      → (build_client_tls crypto opt).0 ≡ ok c
      → (verify : Verifier) × (c.verify_connection ≡ some verify)
        × ((certs : List Bytes) → (verify certs ≡ ok tt) ↔ HasLeaf crypto digest certs)
  build_client_tls-HasLeaf digest c small size pin h =
      let built = build_client_tls-IsClientTls crypto opt c h in
      fingerprint_pinned digest c.verify_connection small size
        (subst (λ p. IsPinned crypto p c.verify_connection) pin built.pinned)

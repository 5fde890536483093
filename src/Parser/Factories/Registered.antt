-- ===== src/Parser/Factories/Registered.antt =====
-- What `Build` makes of the types that the program registers.
use blackboxd.Prelude.{
  ◌≡◌, refl, ap, sym, subst, ◌⊎◌, inl, inr, [], ◌∷◌, some, Result, ok, err, ◌>>=◌, ok_unique,
  ok_or_err, Bool-cases, Option-cases, some_unique, All,
}
use blackboxd.Bytes.{Bytes, bytes, equal}
use blackboxd.Bytes.Laws.{equal_iff}
use blackboxd.Bytes.Maps.{get, put}
use blackboxd.Parser.Registry.{build, by_factory, unknown_type, register}
use blackboxd.Parser.Factories.{
  Parser, Options, OptionError, Platform, Factories, make_kmsg, new_kmsg, make_dmesg, new_dmesg,
  new_syslog_bsd_of, new_syslog_bsd, new_syslog_rfc5424, new_journald, register_all,
}

by_factory-ok : (r : Result OptionError Parser) (p : Parser) → by_factory r ≡ ok p → r ≡ ok p
by_factory-ok (ok q) p h = ap ok (sym (ok_unique h refl))
by_factory-ok (err e) p h = absurd (cc)

module _ {F : Type 0} (platform : Platform F) where
  -- The map that the registrations leave.
  abbrev pub registered : Factories platform
  registered =
      (bytes "dmesg", new_dmesg platform)
      ∷ (bytes "journald", new_journald platform)
      ∷ (bytes "kmsg", new_kmsg platform)
      ∷ (bytes "syslog_bsd", new_syslog_bsd platform)
      ∷ (bytes "syslog_rfc5424", new_syslog_rfc5424 platform)
      ∷ []

  -- No registration panics.
  pub register_all_lem : register_all platform ≡ ok registered
  unfolding register_all register get put equal
  register_all_lem = refl

  -- One of the types of the registered parsers.
  abbrev pub IsType : Bytes → Type 0
  IsType name =
      (name ≡ bytes "dmesg")
      ⊎ ((name ≡ bytes "journald")
          ⊎ ((name ≡ bytes "kmsg")
              ⊎ ((name ≡ bytes "syslog_bsd") ⊎ (name ≡ bytes "syslog_rfc5424"))))

  -- A factory under such a type, whose parsers have that type for their name.
  abbrev IsNamed : Bytes × (Options → Result OptionError Parser) → Type 0
  IsNamed (name, f) = IsType name × ((raw : Options) (p : Parser) → f raw ≡ ok p → p.name ≡ name)

  name-bind {ℓ} :
      {A : Type ℓ} (r : Result OptionError A) (make : A → Parser) (name : Bytes) (p : Parser)
      → ((a : A) → (make a).name ≡ name)
      → (r >>= λ a. ok (make a)) ≡ ok p
      → p.name ≡ name
  name-bind (err e) make name p named h = absurd (cc)
  name-bind (ok a) make name p named h =
      let same : make a ≡ p = cc in subst (λ (q : Parser). q.name ≡ name) same (named a)

  name-new_kmsg :
      (raw : Options) (p : Parser) → new_kmsg platform raw ≡ ok p → p.name ≡ bytes "kmsg"
  unfolding new_kmsg make_kmsg
  name-new_kmsg raw p h = name-bind _ (make_kmsg platform) (bytes "kmsg") p (λ a. refl) h

  name-new_dmesg :
      (raw : Options) (p : Parser) → new_dmesg platform raw ≡ ok p → p.name ≡ bytes "dmesg"
  unfolding new_dmesg make_dmesg
  name-new_dmesg raw p h = name-bind _ (make_dmesg platform) (bytes "dmesg") p (λ a. refl) h

  name-new_syslog_bsd :
      (raw : Options) (p : Parser)
      → new_syslog_bsd platform raw ≡ ok p
      → p.name ≡ bytes "syslog_bsd"
  unfolding new_syslog_bsd new_syslog_bsd_of
  name-new_syslog_bsd raw p h = name-bind _ _ (bytes "syslog_bsd") p (λ a. refl) h

  name_of_ok :
      (f : Options → Result OptionError Parser) (q : Parser) (raw : Options) (p : Parser)
      → f raw ≡ ok q
      → f raw ≡ ok p
      → p.name ≡ q.name
  name_of_ok f q raw p e h = ap (λ (r : Parser). r.name) (ok_unique h e)

  registered-IsNamed : All IsNamed registered
  unfolding new_syslog_rfc5424 new_journald
  registered-IsNamed = (
    (inl refl, name-new_dmesg),
    (
      (inr (inl refl), λ raw p h. name_of_ok (new_journald platform) _ raw p refl h),
      (
        (inr (inr (inl refl)), name-new_kmsg),
        (
          (inr (inr (inr (inl refl))), name-new_syslog_bsd),
          (
            (
              inr (inr (inr (inr refl))),
              λ raw p h. name_of_ok (new_syslog_rfc5424 platform) _ raw p refl h,
            ),
            tt,
          ),
        ),
      ),
    ),
  )

  All-get :
      (m : Factories platform) (name : Bytes) (f : Options → Result OptionError Parser)
      → All IsNamed m
      → get name m ≡ some f
      → IsNamed (name, f)
  unfolding get
  All-get [] name f h e = absurd (cc)
  All-get ((k, g) ∷ m) name f (h, hs) e = elim (Bool-cases (equal k name)) [
    | inl same ↦
        let key : k ≡ name = (equal_iff k name).0 same in
        let found : g ≡ f = some_unique (rw same refl) e in
        subst (λ (x : Options → Result OptionError Parser). IsNamed (name, x)) found
          (subst (λ (j : Bytes). IsNamed (j, g)) key h)
    | inr other ↦ All-get m name f hs (rw other at e)
  ]

  build-ok :
      (m : Factories platform) (name : Bytes) (raw : Options) (p : Parser)
      → build m name raw ≡ ok p
      → (f : Options → Result OptionError Parser) × (get name m ≡ some f) × (f raw ≡ ok p)
  unfolding build
  build-ok m name raw p h = elim (Option-cases (get name m)) [
    | inl unknown ↦ absurd (ok_or_err {e = unknown_type} (rw (build, unknown) refl) h)
    | inr (f, found) ↦ (f, found, by_factory-ok (f raw) p (rw (build, found) at h))
  ]

  -- On the registry that the registrations of the program make, Build returns a parser only for
  -- one of the five types, whatever the options, and the name of the parser is that type.
  pub build-IsType :
      (m : Factories platform) (name : Bytes) (raw : Options) (p : Parser)
      → register_all platform ≡ ok m
      → build m name raw ≡ ok p
      → IsType name × (p.name ≡ name)
  build-IsType m name raw p reg h =
      let same : registered ≡ m = ok_unique register_all_lem reg in
      let named : All IsNamed m =
        subst (λ (r : Factories platform). All IsNamed r) same registered-IsNamed in
      let (f, found, made) = build-ok m name raw p h in
      let (known, is_name) = All-get m name f named found in (known, is_name raw p made)

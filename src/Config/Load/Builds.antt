-- ===== src/Config/Load/Builds.antt =====
-- The parsers of a loaded configuration and the registry of internal/parser.
use blackboxd.Prelude.{
  ◌≡◌, ◌≢◌, refl, inl, inr, ◌⊎◌, Bool, List, [], ◌∷◌, All, Option, some, Result, ok, err,
  Bool-cases, arith,
}
use blackboxd.Bytes.{Bytes, equal}
use blackboxd.Bytes.Laws.{equal_iff}
use blackboxd.Bytes.Maps.{get, keys}
use blackboxd.Bytes.Sorted.{bytes_ltb, insert_name, sorted_names}
use blackboxd.Parser.Registry.{unknown_type, by_factory, build, registered_names}
use blackboxd.Config.Schema.{Config, ParserConfig}
use blackboxd.Config.Validate.{FileSystem}
use blackboxd.Config.Validate.Safe.{Has, IsParser}
use blackboxd.Config.Load.{Decoder, load}
use blackboxd.Config.Load.Loaded.{load-IsLoaded}

Has-insert_name : (n x : Bytes) (l : List Bytes) → Has n (insert_name x l) → (x ≡ n) ⊎ Has n l
unfolding insert_name
Has-insert_name n x [] h = h
Has-insert_name n x (y ∷ l) h = elim (Bool-cases (bytes_ltb y x)) [
  | inl e ↦ elim (rw e at h) [
    | inl s ↦ inr (inl s)
    | inr k ↦ elim (Has-insert_name n x l k) [ inl s ↦ inl s | inr m ↦ inr (inr m) ]
  ]
  | inr e ↦ rw e at h
]

Has-sorted_names : (n : Bytes) (l : List Bytes) → Has n (sorted_names l) → Has n l
unfolding sorted_names
Has-sorted_names n [] h = h
Has-sorted_names n (x ∷ l) h = elim (Has-insert_name n x (sorted_names l) h) [
  | inl s ↦ inl s
  | inr k ↦ inr (Has-sorted_names n l k)
]

get-keys :
    {V : Type 0} (n : Bytes) (m : List (Bytes × V)) → Has n (keys m) → (v : V) × (get n m ≡ some v)
unfolding get keys
get-keys n [] h = absurd h
get-keys n ((k, v) ∷ m) h = elim (Bool-cases (equal k n)) [
  | inl e ↦ rw e (v, refl)
  | inr ne ↦
      rw ne
        (elim h [ inl s ↦ absurd (ground (arith, (equal_iff k n).1 s)) | inr l ↦ get-keys n m l ])
]

by_factory-ne : {E P : Type 0} (r : Result E P) → by_factory r ≢ err unknown_type
by_factory-ne (ok p) h = cc
by_factory-ne (err e) h = cc

module _ {C E P : Type 0} where
  build-known :
      (m : List (Bytes × (C → Result E P))) (n : Bytes) (opts : C)
      → Has n (keys m)
      → build m n opts ≢ err unknown_type
  unfolding build
  build-known m n opts h = let (f, e) = get-keys n m h in rw (e, build) (by_factory-ne (f opts))

  registered-build :
      (m : List (Bytes × (C → Result E P))) (n : Bytes) (opts : C)
      → Has n (registered_names m)
      → build m n opts ≢ err unknown_type
  unfolding registered_names
  registered-build m n opts h = build-known m n opts (Has-sorted_names n (keys m) h)

  -- Every parser of the configuration can be built, unless its factory refuses.
  abbrev AreBuilt :
      {V : Type 0} → List (Bytes × (C → Result E P)) → List (Bytes × ParserConfig V) → Type 0
  AreBuilt m = All (λ p. (opts : C) → build m p.1.type opts ≢ err unknown_type)

  parsers-AreBuilt :
      {V : Type 0} (m : List (Bytes × (C → Result E P))) (ps : List (Bytes × ParserConfig V))
      → All (IsParser (registered_names m)) ps
      → AreBuilt m ps
  parsers-AreBuilt m [] h = tt
  parsers-AreBuilt m ((name, p) ∷ ps) h =
      (λ opts. registered-build m p.type opts h.0.1, parsers-AreBuilt m ps h.1)

  -- For a configuration that Load returns with the names of a registry for the known ones, Build
  -- on that registry does not answer that the type of any of its parsers is unknown, whatever the
  -- options.
  load-AreBuilt :
      {V : Type 0} (toml : Decoder V) (fs : FileSystem) (skip : Bool)
      (m : List (Bytes × (C → Result E P))) (read_file : Bytes → Option Bytes) (path : Bytes)
      (c : Config V)
      → load toml fs read_file skip (registered_names m) path ≡ ok c
      → AreBuilt m c.parsers
  load-AreBuilt toml fs skip m read_file path c h =
      let l = load-IsLoaded toml fs skip (registered_names m) read_file path c h in
      parsers-AreBuilt m c.parsers l.safe.parsers

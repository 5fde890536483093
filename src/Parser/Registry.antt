-- ===== src/Parser/Registry.antt =====
-- internal/parser/registry.go: the map of parser factories.
use blackboxd.Prelude.{List, [], Option, none, some, Result, ok, err, if◌then◌else◌}
use blackboxd.Bytes.{Bytes, equal}
use blackboxd.Bytes.Maps.{get, put, keys}
use blackboxd.Bytes.Sorted.{sorted_names}

-- Why `Register` panics.
pub data Panic : Type 0 where
  empty_name nil_factory duplicate : Panic

-- The errors of `Build`: an unknown name, or what the factory returns.
pub data BuildError (E : Type 0) : Type 0 where
  unknown_type : BuildError E
  refused : E → BuildError E

-- `Register`; a nil factory is `none`.
unfoldable pub register :
    {F : Type 0} → Bytes → Option F → List (Bytes × F) → Result Panic (List (Bytes × F))
register name none m = if equal name [] then err empty_name else err nil_factory
register name (some f) m =
    if equal name []
    then err empty_name
    else elim (get name m) [ none ↦ ok (put name f m) | some g ↦ err duplicate ]

-- What the factory returns.
abbrev pub by_factory : {E P : Type 0} → Result E P → Result (BuildError E) P
by_factory (ok p) = ok p
by_factory (err e) = err (refused e)

-- `Build`, for factories that take options of a type `C`.
unfoldable pub build :
    {C E P : Type 0} → List (Bytes × (C → Result E P)) → Bytes → C → Result (BuildError E) P
build m name config = elim (get name m) [ none ↦ err unknown_type | some f ↦ by_factory (f config) ]

-- `RegisteredNames`.
unfoldable pub registered_names : {F : Type 0} → List (Bytes × F) → List Bytes
registered_names m = sorted_names (keys m)

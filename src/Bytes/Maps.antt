-- ===== src/Bytes/Maps.antt =====
-- Go's maps with string keys, as association lists that hold a key once.
use blackboxd.Prelude.{
  ◌≡◌, refl, List, [], ◌∷◌, Option, none, some, if◌then◌else◌, Bool-cases, inl, inr, arith,
}
use blackboxd.Bytes.{Bytes, equal}
use blackboxd.Bytes.Laws.{equal_iff}

module _ {ℓ} {V : Type ℓ} where
  -- `m[k]`, `none` for a key that is not there.
  unfoldable pub get : Bytes → List (Bytes × V) → Option V
  get k [] = none
  get k ((j, v) ∷ m) = if equal j k then some v else get k m

  -- `m[k] = v`.
  unfoldable pub put : Bytes → V → List (Bytes × V) → List (Bytes × V)
  put k v [] = (k, v) ∷ []
  put k v ((j, w) ∷ m) = let later = put k v m in if equal j k then (k, v) ∷ m else (j, w) ∷ later

  -- `delete(m, k)`.
  unfoldable pub remove : Bytes → List (Bytes × V) → List (Bytes × V)
  remove k [] = []
  remove k ((j, v) ∷ m) = let later = remove k m in if equal j k then later else (j, v) ∷ later

  -- The keys of a map.
  unfoldable pub keys : List (Bytes × V) → List Bytes
  keys [] = []
  keys ((k, v) ∷ m) = k ∷ keys m

  pub get-put :
      (j k : Bytes) (v : V) (m : List (Bytes × V))
      → get j (put k v m) ≡ (if equal k j then some v else get j m)
  unfolding get put
  get-put j k v [] = refl
  get-put j k v ((i, w) ∷ m) = elim (Bool-cases (equal i k)) [
    | inl e ↦ ground (arith, (equal_iff i k).0 e)
    | inr ne ↦ ground (arith, ne, equal_iff i j, equal_iff k j, equal_iff i k, get-put j k v m)
  ]

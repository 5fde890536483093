-- ===== src/Bytes/Sorted.antt =====
-- `sort.Strings`.
use blackboxd.Prelude.{Bool, true, false, ◌&&◌, ◌||◌, List, [], ◌∷◌, ltb, ◌==◌, if◌then◌else◌}
use blackboxd.Bytes.{Bytes}

-- `a < b` on strings.
unfoldable pub bytes_ltb : Bytes → Bytes → Bool
bytes_ltb s [] = false
bytes_ltb [] (y ∷ ys) = true
bytes_ltb (x ∷ xs) (y ∷ ys) = ltb x y || (x == y && bytes_ltb xs ys)

-- `sort.Strings`.
unfoldable pub insert_name : Bytes → List Bytes → List Bytes
insert_name x [] = x ∷ []
insert_name x (y ∷ l) = if bytes_ltb y x then y ∷ insert_name x l else x ∷ y ∷ l

unfoldable pub sorted_names : List Bytes → List Bytes
sorted_names [] = []
sorted_names (x ∷ l) = insert_name x (sorted_names l)

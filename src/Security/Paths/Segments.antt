-- ===== src/Security/Paths/Segments.antt =====
-- The segments that `filepath.Clean` keeps of a path, and what splitting them again gives.
use blackboxd.Prelude.{
  All-map, ◌≡◌, refl, ap, ◌∙◌, inl, inr, Bool, true, false, List, [], ◌∷◌, ◌++◌, All, append-nil,
  Bool-cases, arith, subst,
}
use blackboxd.Bytes.{Bytes, bytes, equal, split}
use blackboxd.Bytes.Laws.{equal_iff, Lacks, split_of_Lacks, split-append, split-Lacks}
use blackboxd.Security.Paths.{
  is_abs, take_back, add_segment, add_segments, join_segments, has_dot_dot,
}

-- A segment: not empty, and no slash in it.
abbrev pub IsSegment : Bytes → Type 0
IsSegment s = (equal s [] ≡ false) × Lacks b'/' s

-- Neither `.` nor `..`.
abbrev pub IsName : Bytes → Type 0
IsName s = (equal s (bytes ".") ≡ false) × (equal s (bytes "..") ≡ false)

module _ (P : Bytes → Type 0) where
  take_back-All :
      (rooted : Bool) (segs : List Bytes)
      → (rooted ≡ false → P (bytes ".."))
      → All P segs
      → All P (take_back rooted segs)
  unfolding take_back
  take_back-All true [] d h = tt
  take_back-All false [] d h = (d refl, tt)
  take_back-All rooted (s ∷ segs) d h = elim (Bool-cases (equal s (bytes ".."))) [
    | inl e ↦ rw e (subst P ((equal_iff s (bytes "..")).0 e) h.0, h)
    | inr ne ↦ rw ne h.1
  ]

  add_segment-All :
      (rooted : Bool) (segs : List Bytes) (s : Bytes)
      → (rooted ≡ false → P (bytes ".."))
      → (equal s [] ≡ false → equal s (bytes ".") ≡ false → equal s (bytes "..") ≡ false → P s)
      → All P segs
      → All P (add_segment rooted segs s)
  unfolding add_segment
  add_segment-All rooted segs s d k h = elim (Bool-cases (equal s [])) [
    | inl e ↦ rw e h
    | inr some ↦ elim (Bool-cases (equal s (bytes "."))) [
      | inl e ↦ rw (some, e) h
      | inr one ↦ elim (Bool-cases (equal s (bytes ".."))) [
        | inl e ↦ rw (some, one, e) (take_back-All rooted segs d h)
        | inr two ↦ rw (some, one, two) (k some one two, h)
      ]
    ]
  ]

  add_segments-All :
      (rooted : Bool) (segs ss : List Bytes)
      → (rooted ≡ false → P (bytes ".."))
      → All
          (λ s.
            equal s [] ≡ false → equal s (bytes ".") ≡ false → equal s (bytes "..") ≡ false → P s)
          ss
      → All P segs
      → All P (add_segments rooted segs ss)
  unfolding add_segments
  add_segments-All rooted segs [] d k h = h
  add_segments-All rooted segs (s ∷ ss) d k h =
      add_segments-All rooted (add_segment rooted segs s) ss d k.1
        (add_segment-All rooted segs s d k.0 h)

-- The segments of a cleaned path, last one first.
abbrev pub path_segments : Bytes → List Bytes
path_segments p = add_segments (is_abs p) [] (split b'/' p)

pub path_segments-All : (p : Bytes) → All IsSegment (path_segments p)
unfolding equal
path_segments-All p =
    add_segments-All IsSegment (is_abs p) [] (split b'/' p) (λ e. (refl, (refl, (refl, tt))))
      (All-map (Lacks b'/') _ (λ s h e one two. (e, h)) (split b'/' p) (split-Lacks b'/' p)) tt

-- No segment of a path from the root is `.` or `..`.
pub path_segments-IsName : (p : Bytes) → is_abs p ≡ true → All IsName (path_segments p)
path_segments-IsName p root =
    add_segments-All IsName (is_abs p) [] (split b'/' p) (λ e. absurd (ground (arith, root, e)))
      (All-map (Lacks b'/') _ (λ s h e one two. (one, two)) (split b'/' p) (split-Lacks b'/' p)) tt

-- Segments put in front, the first of them last.
abbrev pub onto : List Bytes → List Bytes → List Bytes
onto [] l = l
onto (s ∷ ss) l = onto ss (s ∷ l)

split-join_behind :
    (s : Bytes) (ss : List Bytes) (rest : Bytes)
    → All (Lacks b'/') (s ∷ ss)
    → split b'/' (join_segments (s ∷ ss) (b'/' ∷ rest)) ≡ onto (s ∷ ss) (split b'/' rest)
unfolding join_segments
split-join_behind s [] rest h = split-append b'/' s rest h.0
split-join_behind s (t ∷ ss) rest h =
    split-join_behind t ss (s ++ (b'/' ∷ rest)) h.1
    ∙ ap (λ (l : List Bytes). onto (t ∷ ss) l) (split-append b'/' s rest h.0)

-- The pieces of joined segments are the segments.
pub split-join :
    (s : Bytes) (ss : List Bytes)
    → All (Lacks b'/') (s ∷ ss)
    → split b'/' (join_segments (s ∷ ss) []) ≡ onto (s ∷ ss) []
unfolding join_segments
split-join s [] h = rw append-nil (split_of_Lacks b'/' s h.0)
split-join s (t ∷ ss) h = rw append-nil (
    split-join_behind t ss s h.1
    ∙ ap (λ (l : List Bytes). onto (t ∷ ss) l) (split_of_Lacks b'/' s h.0))

-- Segments that are names are taken as they stand.
pub add_segments-onto :
    (rooted : Bool) (acc ss l : List Bytes)
    → All IsSegment ss
    → All IsName ss
    → add_segments rooted acc (onto ss l) ≡ add_segments rooted (ss ++ acc) l
unfolding add_segments add_segment
add_segments-onto rooted acc [] l h k = refl
add_segments-onto rooted acc (s ∷ ss) l h k =
    add_segments-onto rooted acc ss (s ∷ l) h.1 k.1 ∙ rw (h.0.0, k.0.0, k.0.1) refl

pub has_dot_dot-onto : (ss l : List Bytes) → All IsName ss → has_dot_dot (onto ss l) ≡ has_dot_dot l
unfolding has_dot_dot
has_dot_dot-onto [] l k = refl
has_dot_dot-onto (s ∷ ss) l k = has_dot_dot-onto ss (s ∷ l) k.1 ∙ rw k.0.1 refl

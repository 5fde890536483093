-- ===== src/Security/Paths/Canonical.antt =====
-- What `CanonicalizePath` accepts.
use blackboxd.Prelude.{
  All-map, ◌≡◌, ◌↔◌, refl, ap, sym, ◌∙◌, inl, inr, Bool, true, false, List, [], ◌∷◌, ◌++◌, All,
  append-nil, ok, err, if◌then◌else◌, Bool-cases, arith,
}
use blackboxd.Bytes.{Bytes, bytes, equal, split}
use blackboxd.Bytes.Laws.{Lacks}
use blackboxd.Security.Paths.{
  insecure, is_abs, add_segment, add_segments, join_segments, clean, has_dot_dot, canonicalize_path,
}
use blackboxd.Security.Paths.Segments.{
  IsSegment, IsName, path_segments, path_segments-All, path_segments-IsName, split-join,
  add_segments-onto, has_dot_dot-onto,
}

-- A path from the root whose segments are names.
abbrev pub rooted_path : List Bytes → Bytes
rooted_path segs = b'/' ∷ join_segments segs []

-- Its pieces give its segments back, and there is no `..` among them.
rooted_path-segments :
    (segs : List Bytes)
    → All IsSegment segs
    → All IsName segs
    → (add_segments true [] (split b'/' (rooted_path segs)) ≡ segs)
      × (has_dot_dot (split b'/' (rooted_path segs)) ≡ false)
unfolding split join_segments add_segments add_segment has_dot_dot equal
rooted_path-segments [] h k = (refl, refl)
rooted_path-segments (s ∷ ss) h k =
    rw (split-join s ss (All-map IsSegment (Lacks b'/') (λ t e. e.1) (s ∷ ss) h)) (
      add_segments-onto true [] (s ∷ ss) [] h k ∙ append-nil (s ∷ ss),
      has_dot_dot-onto (s ∷ ss) [] k,
    )

if_true {ℓ} : {A : Type ℓ} {b : Bool} (x y : A) → b ≡ true → (if b then x else y) ≡ x
if_true x y e = rw e refl

if_false {ℓ} : {A : Type ℓ} {b : Bool} (x y : A) → b ≡ false → (if b then x else y) ≡ y
if_false x y e = rw e refl

clean_rooted : (p : Bytes) → is_abs p ≡ true → clean p ≡ rooted_path (path_segments p)
unfolding clean
clean_rooted p root = if_true _ _ root

is_abs-join :
    (s : Bytes) (ss : List Bytes) (tail : Bytes)
    → All IsSegment (s ∷ ss)
    → is_abs (join_segments (s ∷ ss) tail) ≡ false
unfolding is_abs join_segments equal
is_abs-join [] ss tail h = absurd (ground arith)
is_abs-join (c ∷ s) [] tail h = h.0.1.0
is_abs-join (c ∷ s) (t ∷ ss) tail h = is_abs-join t ss (b'/' ∷ ((c ∷ s) ++ tail)) h.1

relative_path : List Bytes → Bytes
relative_path segs =
    let joined = join_segments segs [] in if equal joined [] then bytes "." else joined

is_abs-relative_path :
    (segs : List Bytes) → All IsSegment segs → is_abs (relative_path segs) ≡ false
unfolding relative_path is_abs equal join_segments
is_abs-relative_path [] h = refl
is_abs-relative_path (s ∷ ss) h = elim (Bool-cases (equal (join_segments (s ∷ ss) []) [])) [
  | inl e ↦ rw e refl
  | inr ne ↦ rw ne (is_abs-join s ss [] h)
]

clean_relative : (p : Bytes) → is_abs p ≡ false → is_abs (clean p) ≡ false
unfolding clean relative_path
clean_relative p relative =
    ap is_abs (if_false _ _ relative) ∙ is_abs-relative_path (path_segments p) (path_segments-All p)

pub some_rooted : (p : Bytes) → is_abs p ≡ true → equal p [] ≡ false
unfolding is_abs equal
some_rooted [] h = absurd (ground arith)
some_rooted (c ∷ p) h = refl

is_abs-rooted_path : (segs : List Bytes) → is_abs (rooted_path segs) ≡ true
unfolding is_abs
is_abs-rooted_path segs = refl

path_segments-rooted_path :
    (segs : List Bytes)
    → add_segments true [] (split b'/' (rooted_path segs)) ≡ segs
    → path_segments (rooted_path segs) ≡ segs
path_segments-rooted_path segs e = rw (is_abs-rooted_path segs) e

pub canonicalize_rooted : (p : Bytes) → is_abs p ≡ true → canonicalize_path p ≡ ok (clean p)
unfolding canonicalize_path
canonicalize_rooted p root =
    let (again, none) =
      rooted_path-segments (path_segments p) (path_segments-All p) (path_segments-IsName p root) in
    rw (some_rooted p root, clean_rooted p root, is_abs-rooted_path (path_segments p), none) refl

pub canonicalize_relative : (p : Bytes) → is_abs p ≡ false → canonicalize_path p ≡ err insecure
unfolding canonicalize_path
canonicalize_relative p relative = elim (Bool-cases (equal p [])) [
  | inl e ↦ rw e refl
  | inr ne ↦ rw (ne, clean_relative p relative) refl
]

-- CanonicalizePath accepts the paths that start with a slash, and cleans them: what it tests of the
-- cleaned path always holds of these.
pub canonicalize_path_iff :
    (p c : Bytes) → (canonicalize_path p ≡ ok c) ↔ ((is_abs p ≡ true) × (c ≡ clean p))
canonicalize_path_iff p c = elim (Bool-cases (is_abs p)) [
  | inl root ↦ let e = canonicalize_rooted p root in ground (arith, e, root)
  | inr relative ↦ let e = canonicalize_relative p relative in ground (arith, e, relative)
]

-- A slash and the names of a path with slashes between them; and `CanonicalizePath` keeps it.
pub record IsCanonical (c : Bytes) : Type 0 where
  pub names : List Bytes
  pub joined : c ≡ rooted_path names
  pub are_segments : All IsSegment names
  pub no_dots : All IsName names
  pub kept : canonicalize_path c ≡ ok c

-- A path that CanonicalizePath returns is a slash and names with slashes between them, none of
-- which is empty, a dot or two dots, or has a slash in it; and CanonicalizePath returns it
-- unchanged when it is given it again.
pub canonicalize_path-IsCanonical : (p c : Bytes) → canonicalize_path p ≡ ok c → IsCanonical c
canonicalize_path-IsCanonical p c h =
    let (root, e) = (canonicalize_path_iff p c).0 h in
    let joined = e ∙ clean_rooted p root in
    let (again, none) =
      rooted_path-segments (path_segments p) (path_segments-All p) (path_segments-IsName p root) in
    let same = ap path_segments joined ∙ path_segments-rooted_path (path_segments p) again in
    let root' = ap is_abs joined ∙ is_abs-rooted_path (path_segments p) in
    record {
      names = path_segments p;
      joined = joined;
      are_segments = path_segments-All p;
      no_dots = path_segments-IsName p root;
      kept =
          (canonicalize_path_iff c c).1
            (root', sym (clean_rooted c root' ∙ ap rooted_path same ∙ sym joined));
    }

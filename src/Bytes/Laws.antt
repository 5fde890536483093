-- ===== src/Bytes/Laws.antt =====
-- Laws of the string operations.
use blackboxd.Prelude.{
  ℕ, suc, ◌+◌, ◌≡◌, refl, ap, ◌↔◌, inl, inr, true, false, List, [], ◌∷◌, ◌++◌, none, some, arith,
  ◌==◌, Bool-cases, Option-cases, subst, ◌≢◌, length, take, drop, All,
}
use native.Mathlib.Numerals.{add-one}
use blackboxd.Bytes.{Bytes, equal, index_byte, split, split_n, onto_first}

pub equal_iff : (s t : Bytes) → (equal s t ≡ true) ↔ (s ≡ t)
unfolding equal
equal_iff [] [] = ground arith
equal_iff [] (d ∷ t) = ground arith
equal_iff (c ∷ s) [] = ground arith
equal_iff (c ∷ s) (d ∷ t) = let tails = equal_iff s t in ground (arith, tails)

-- The byte does not occur.
abbrev pub Lacks : ℕ → Bytes → Type 0
Lacks c s = All (λ x. (x == c) ≡ false) s

-- The first occurrence is found behind any text without the byte.
pub index_byte-append :
    (c : ℕ) (s rest : Bytes) → Lacks c s → index_byte c (s ++ (c ∷ rest)) ≡ some (length s)
unfolding index_byte
index_byte-append c [] rest h = ground arith
index_byte-append c (x ∷ s) rest h = ground (arith, index_byte-append c s rest h.1)

-- The parts of a text around a byte that it holds: before its first occurrence, and behind it.
pub record Cut (c : ℕ) (s : Bytes) (i : ℕ) : Type 0 where
  pub head : Bytes
  pub rest : Bytes
  pub splits : s ≡ head ++ (c ∷ rest)
  pub first : Lacks c head
  pub at_index : length head ≡ i

Cut-cons : {c i : ℕ} {s : Bytes} (x : ℕ) → (x == c) ≡ false → Cut c s i → Cut c (x ∷ s) (i + 1)
Cut-cons x ne k = record {
  head = x ∷ k.head;
  rest = k.rest;
  splits = ap (◌∷◌ x) k.splits;
  first = (ne, k.first);
  at_index = omega (arith, k.at_index);
}

pub index_byte-Cut : (c : ℕ) (s : Bytes) {i : ℕ} → index_byte c s ≡ some i → Cut c s i
unfolding index_byte
index_byte-Cut c [] h = absurd (cc)
index_byte-Cut c (x ∷ s) {i} h = elim (Bool-cases (x == c)) [
  | inl e ↦ record {
    head = [];
    rest = s;
    splits = ground arith;
    first = tt;
    at_index = ground arith;
  }
  | inr ne ↦ elim (Option-cases (index_byte c s)) [
    | inl e ↦ absurd (ground arith)
    | inr (j, e) ↦
        let ij : j + 1 ≡ i = ground arith in
        subst (Cut c (x ∷ s)) ij (Cut-cons x ne (index_byte-Cut c s e))
  ]
]

pub index_byte-none : (c : ℕ) (s : Bytes) → index_byte c s ≡ none → Lacks c s
unfolding index_byte
index_byte-none c [] h = tt
index_byte-none c (x ∷ s) h = ground (arith, index_byte-none c s)

pub index_byte_of_Lacks : (c : ℕ) (s : Bytes) → Lacks c s → index_byte c s ≡ none
unfolding index_byte
index_byte_of_Lacks c [] h = refl
index_byte_of_Lacks c (x ∷ s) h = ground (arith, index_byte_of_Lacks c s h.1)

pub take-length-append {ℓ} : {A : Type ℓ} (xs ys : List A) → take (length xs) (xs ++ ys) ≡ xs
take-length-append [] ys = refl
take-length-append (x ∷ xs) ys = ap (◌∷◌ x) (take-length-append xs ys)

pub drop-length-append {ℓ} : {A : Type ℓ} (xs ys : List A) → drop (length xs) (xs ++ ys) ≡ ys
drop-length-append [] ys = refl
drop-length-append (x ∷ xs) ys = drop-length-append xs ys

module _ {ℓ} {A : Type ℓ} where
  pub drop-suc-length :
      (xs : List A) (c : A) (ys : List A) → drop (suc (length xs)) (xs ++ (c ∷ ys)) ≡ ys
  drop-suc-length [] c ys = refl
  drop-suc-length (x ∷ xs) c ys = drop-suc-length xs c ys

  -- The slice behind the separator.
  pub drop_behind : (xs : List A) (c : A) (ys : List A) → drop (length xs + 1) (xs ++ (c ∷ ys)) ≡ ys
  drop_behind xs c ys = rw add-one (drop-suc-length xs c ys)

pub Lacks-append : (c : ℕ) (s t : Bytes) → Lacks c s → Lacks c t → Lacks c (s ++ t)
Lacks-append c [] t h k = k
Lacks-append c (x ∷ s) t h k = (h.0, Lacks-append c s t h.1 k)

-- A piece without the separator comes off the front.
pub split_n-append :
    (sep n : ℕ) (s rest : Bytes)
    → Lacks sep s
    → split_n sep (suc (suc n)) (s ++ (sep ∷ rest)) ≡ s ∷ split_n sep (suc n) rest
unfolding split_n
split_n-append sep n s rest h = ground (
  arith,
  index_byte-append sep s rest h,
  take-length-append s (sep ∷ rest),
  drop_behind s sep rest,
)

pub split_n-last : (sep n : ℕ) (s : Bytes) → Lacks sep s → split_n sep (suc (suc n)) s ≡ s ∷ []
unfolding split_n
split_n-last sep n s h = ground (arith, index_byte_of_Lacks sep s h)

pub equal-nil : (s : Bytes) → s ≢ [] → equal s [] ≡ false
unfolding equal
equal-nil [] h = absurd (h refl)
equal-nil (x ∷ s) h = refl

-- The only piece of a text without the separator is the text.
pub split_of_Lacks : (sep : ℕ) (s : Bytes) → Lacks sep s → split sep s ≡ s ∷ []
unfolding split
split_of_Lacks sep [] h = refl
split_of_Lacks sep (x ∷ s) h = rw (h.0, split_of_Lacks sep s h.1) refl

-- A text without the separator is the first piece.
pub split-append :
    (sep : ℕ) (s rest : Bytes) → Lacks sep s → split sep (s ++ (sep ∷ rest)) ≡ s ∷ split sep rest
unfolding split
split-append sep [] rest h = ground arith
split-append sep (x ∷ s) rest h = rw (h.0, split-append sep s rest h.1) refl

onto_first-Lacks :
    (sep x : ℕ) (ps : List Bytes)
    → (x == sep) ≡ false
    → All (Lacks sep) ps
    → All (Lacks sep) (onto_first x ps)
onto_first-Lacks sep x [] h k = ((h, tt), tt)
onto_first-Lacks sep x (p ∷ ps) h k = ((h, k.0), k.1)

-- No piece has the separator.
pub split-Lacks : (sep : ℕ) (s : Bytes) → All (Lacks sep) (split sep s)
unfolding split
split-Lacks sep [] = (tt, tt)
split-Lacks sep (x ∷ s) = elim (Bool-cases (x == sep)) [
  | inl e ↦ rw e (tt, split-Lacks sep s)
  | inr ne ↦ rw ne (onto_first-Lacks sep x (split sep s) ne (split-Lacks sep s))
]

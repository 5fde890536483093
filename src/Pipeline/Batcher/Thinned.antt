-- ===== src/Pipeline/Batcher/Thinned.antt =====
-- Lists of entries with some of them left out, which are counted.
use blackboxd.Prelude.{
  ℕ, zero, suc, ◌+◌, ◌≤◌, ◌≡◌, refl, subst, List, [], ◌∷◌, ◌++◌, some, length, drop, map, arith,
}
use blackboxd.Entry.{LogEntry}
use blackboxd.Pipeline.Ring.{Slot}

-- A list from which `n` elements were left out, the others in their order.
pub data Thinned : ℕ → List Slot → List Slot → Type 0 where
  ends : Thinned 0 [] []
  keeps : {n : ℕ} {xs ys : List Slot} (x : Slot) → Thinned n xs ys → Thinned n (x ∷ xs) (x ∷ ys)
  skips : {n : ℕ} {xs ys : List Slot} (x : Slot) → Thinned n xs ys → Thinned (suc n) (x ∷ xs) ys

pub Thinned-snoc :
    {n : ℕ} {xs ys : List Slot} (z : Slot)
    → Thinned n xs ys
    → Thinned n (xs ++ (z ∷ [])) (ys ++ (z ∷ []))
Thinned-snoc z ends = keeps z ends
Thinned-snoc z (keeps x t) = keeps x (Thinned-snoc z t)
Thinned-snoc z (skips x t) = skips x (Thinned-snoc z t)

Thinned-one :
    {n : ℕ} {xs zs : List Slot} (as' : List Slot) (b : Slot) (bs : List Slot)
    → Thinned n xs zs
    → zs ≡ as' ++ (b ∷ bs)
    → Thinned (suc n) xs (as' ++ bs)
Thinned-one [] b bs ends e = absurd (cc)
Thinned-one [] b bs (keeps x t) e = skips x (subst (Thinned _ _) (cc) t)
Thinned-one [] b bs (skips x t) e = skips x (Thinned-one [] b bs t e)
Thinned-one (a ∷ as') b bs ends e = absurd (cc)
Thinned-one (a ∷ as') b bs (keeps {n = k} {xs = xs} {ys = ys} x t) e =
    let heads : x ≡ a = cc in
    let tails : ys ≡ as' ++ (b ∷ bs) = cc in
    subst (λ (h : Slot). Thinned (suc k) (x ∷ xs) (h ∷ (as' ++ bs))) heads
      (keeps x (Thinned-one as' b bs t tails))
Thinned-one (a ∷ as') b bs (skips x t) e = skips x (Thinned-one (a ∷ as') b bs t e)

-- Leaving out the first of the last ones.
pub Thinned-drop :
    (g : ℕ) {n : ℕ} {xs : List Slot} (as' bs : List Slot)
    → g ≤ length bs
    → Thinned n xs (as' ++ bs)
    → Thinned (n + g) xs (as' ++ drop g bs)
Thinned-drop zero {xs = xs} as' bs le t = subst (λ k. Thinned k xs (as' ++ bs)) (omega arith) t
Thinned-drop (suc g) as' [] le t = absurd (omega arith)
Thinned-drop (suc g) {n} {xs} as' (b ∷ bs) le t =
    subst (λ k. Thinned k xs (as' ++ drop g bs)) (omega arith)
      (Thinned-drop g {n = suc n} as' bs (omega arith) (Thinned-one as' b bs t refl))

pub drop-map-some : (g : ℕ) (es : List LogEntry) → map some (drop g es) ≡ drop g (map some es)
drop-map-some zero es = refl
drop-map-some (suc g) [] = refl
drop-map-some (suc g) (e ∷ es) = drop-map-some g es

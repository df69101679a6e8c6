-- ===== src/Prelude/Slices.antt =====
-- Fronts and backs of lists: how `take` and `drop` meet one another and `++`.
use Prim.Native.Nat.{ℕ, zero, suc, ◌+◌, ◌-◌, ◌≤◌}
use mathlib.Core.Path.{◌≡◌, refl, ap, ◌∙◌}
use mathlib.Core.List.{List, [], ◌∷◌, ◌++◌}
use native.Mathlib.Omega.{arith}
use awesome_dsa.Prelude.Lists.{length, take, drop}

module _ {ℓ} {A : Type ℓ} where
  pub take-take : (xs : List A) (m n : ℕ) → m ≤ n → take m (take n xs) ≡ take m xs
  take-take xs zero n h = refl
  take-take xs (suc m) zero h = elim h [ ]
  take-take [] (suc m) (suc n) h = refl
  take-take (x ∷ xs) (suc m) (suc n) h = ap (◌∷◌ x) (take-take xs m n (omega arith))

  pub drop-take : (xs : List A) (k n : ℕ) → drop k (take n xs) ≡ take (n - k) (drop k xs)
  drop-take xs zero n = let e : n ≡ n - 0 = omega arith in ap (λ j. take j xs) e
  drop-take xs (suc k) zero =
      let e : 0 ≡ 0 - suc k = omega arith in ap (λ j. take j (drop (suc k) xs)) e
  drop-take [] (suc k) (suc n) = take_nil (suc n - suc k)
    where
      take_nil : (n : ℕ) → ◌≡◌ {A = List A} [] (take n [])
      take_nil zero = refl
      take_nil (suc n) = refl
  drop-take (x ∷ xs) (suc k) (suc n) =
      let e : n - k ≡ suc n - suc k = omega arith in
      drop-take xs k n ∙ ap (λ j. take j (drop k xs)) e

  pub drop-drop : (xs : List A) (a b : ℕ) → drop b (drop a xs) ≡ drop (a + b) xs
  drop-drop xs zero b = let e : b ≡ 0 + b = omega arith in ap (λ j. drop j xs) e
  drop-drop [] (suc a) zero = let e : suc a ≡ suc a + 0 = omega arith in ap (λ j. drop j []) e
  drop-drop [] (suc a) (suc b) =
      let e : suc (a + suc b) ≡ suc a + suc b = omega arith in ap (λ j. drop {A = A} j []) e
  drop-drop (x ∷ xs) (suc a) b =
      let e : suc (a + b) ≡ suc a + b = omega arith in
      drop-drop xs a b ∙ ap (λ j. drop j (x ∷ xs)) e

  pub take-append_sub :
      (xs ys : List A) (k : ℕ) → take k (xs ++ ys) ≡ take k xs ++ take (k - length xs) ys
  take-append_sub [] ys k = let e : k ≡ k - 0 = omega arith in nil_front k (ap (λ j. take j ys) e)
    where
      nil_front : (k : ℕ) → take k ys ≡ take (k - 0) ys → take k ys ≡ take k [] ++ take (k - 0) ys
      nil_front zero p = p
      nil_front (suc k) p = p
  take-append_sub (x ∷ xs) ys zero =
      let e : 0 ≡ 0 - suc (length xs) = omega arith in ap (λ j. take j ys) e
  take-append_sub (x ∷ xs) ys (suc k) =
      let e : k - length xs ≡ suc k - suc (length xs) = omega arith in
      ap (◌∷◌ x) (take-append_sub xs ys k ∙ ap (λ j. take k xs ++ take j ys) e)

  pub drop-append_sub :
      (xs ys : List A) (k : ℕ) → drop k (xs ++ ys) ≡ drop k xs ++ drop (k - length xs) ys
  drop-append_sub [] ys k = let e : k ≡ k - 0 = omega arith in nil_front k (ap (λ j. drop j ys) e)
    where
      nil_front : (k : ℕ) → drop k ys ≡ drop (k - 0) ys → drop k ys ≡ drop k [] ++ drop (k - 0) ys
      nil_front zero p = p
      nil_front (suc k) p = p
  drop-append_sub (x ∷ xs) ys zero =
      let e : 0 ≡ 0 - suc (length xs) = omega arith in ap (λ j. x ∷ xs ++ drop j ys) e
  drop-append_sub (x ∷ xs) ys (suc k) =
      let e : k - length xs ≡ suc k - suc (length xs) = omega arith in
      drop-append_sub xs ys k ∙ ap (λ j. drop k xs ++ drop j ys) e

  pub take_all : (xs : List A) (k : ℕ) → length xs ≤ k → take k xs ≡ xs
  take_all [] zero h = refl
  take_all [] (suc k) h = refl
  take_all (x ∷ xs) zero h = elim h [ ]
  take_all (x ∷ xs) (suc k) h = ap (◌∷◌ x) (take_all xs k (omega arith))

  pub drop_all : (xs : List A) (k : ℕ) → length xs ≤ k → drop k xs ≡ []
  drop_all [] zero h = refl
  drop_all [] (suc k) h = refl
  drop_all (x ∷ xs) zero h = elim h [ ]
  drop_all (x ∷ xs) (suc k) h = drop_all xs k (omega arith)

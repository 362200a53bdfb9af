-- ===== src/Provider/Threads/Sums.antt =====
-- src/ProviderImpl.hpp: sums over the objects and over the tasks of a provider.
use mochi_colza.Base.{
  nat_eq, ℕ, zero, suc, ◌+◌, ◌≤◌, ◌<◌, ◌≡◌, refl, none, some, List, [], ◌∷◌, ◌++◌, ◌==◌, inl, inr,
  Option-cases, if◌then◌else◌, arith, length, get_elem?, set,
}
use mochi_colza.Provider.Shared.{take_out}

module _ {A : Type 0} (w : A → ℕ) where
  unfoldable pub sum : List A → ℕ
  sum [] = 0
  sum (x ∷ xs) = w x + sum xs

  -- What the element at an index adds.
  abbrev pub at : List A → ℕ → ℕ
  at xs i = elim (get_elem? xs i) [ none ↦ 0 | some x ↦ w x ]

  pub sum-set :
      (xs : List A) (i : ℕ) (x v : A)
      → get_elem? xs i ≡ some x
      → sum (set xs i v) + w x ≡ sum xs + w v
  unfolding sum
  sum-set [] i x v e = ground arith
  sum-set (y ∷ xs) zero x v e = ground arith
  sum-set (y ∷ xs) (suc i) x v e = omega (arith, sum-set xs i x v e)

  pub at-le-sum : (xs : List A) (i : ℕ) → at xs i ≤ sum xs
  unfolding sum
  at-le-sum [] i = omega arith
  at-le-sum (y ∷ xs) zero = omega arith
  at-le-sum (y ∷ xs) (suc i) = omega (arith, at-le-sum xs i)

  pub sum-snoc : (xs : List A) (v : A) → sum (xs ++ v ∷ []) ≡ sum xs + w v
  unfolding sum
  sum-snoc [] v = omega arith
  sum-snoc (y ∷ xs) v = omega (arith, sum-snoc xs v)

  pub sum-take_out :
      (n : ℕ) (xs : List A) (x : A) (rest : List A)
      → take_out n xs ≡ some (x, rest)
      → sum xs ≡ w x + sum rest
  unfolding sum take_out
  sum-take_out n [] x rest e = ground arith
  sum-take_out zero (y ∷ xs) x rest e = ground arith
  sum-take_out (suc n) (y ∷ xs) x rest e = elim (Option-cases (take_out n xs)) [
    | inl nothing ↦ ground arith
    | inr ((z, zs), found) ↦ ground (arith, sum-take_out n xs z zs found)
  ]

  -- A sum is 0 exactly if every element adds 0.
  pub sum-eq-zero : (xs : List A) → ((i : ℕ) → at xs i ≡ 0) → sum xs ≡ 0
  unfolding sum
  sum-eq-zero [] h = refl
  sum-eq-zero (x ∷ xs) h = omega (arith, h 0, sum-eq-zero xs (λ i. h (suc i)))

  pub sum-le-length : ((x : A) → w x ≤ 1) → (xs : List A) → sum xs ≤ length xs
  unfolding sum
  sum-le-length h [] = omega arith
  sum-le-length h (x ∷ xs) = omega (arith, h x, sum-le-length h xs)

module _ {A : Type 0} where
  pub get_elem?-set :
      (xs : List A) (i j : ℕ) (x v : A)
      → get_elem? xs i ≡ some x
      → get_elem? (set xs i v) j ≡ (if i == j then some v else get_elem? xs j)
  get_elem?-set [] i j x v e = ground arith
  get_elem?-set (y ∷ xs) zero zero x v e = refl
  get_elem?-set (y ∷ xs) zero (suc j) x v e = ground arith
  get_elem?-set (y ∷ xs) (suc i) zero x v e = ground arith
  get_elem?-set (y ∷ xs) (suc i) (suc j) x v e = ground (arith, get_elem?-set xs i j x v e)

  pub get_elem?-snoc :
      (xs : List A) (j : ℕ) (v : A)
      → get_elem? (xs ++ v ∷ []) j ≡ (if length xs == j then some v else get_elem? xs j)
  get_elem?-snoc [] zero v = refl
  get_elem?-snoc [] (suc j) v = ground arith
  get_elem?-snoc (y ∷ xs) zero v = ground arith
  get_elem?-snoc (y ∷ xs) (suc j) v = ground (arith, get_elem?-snoc xs j v)

  pub set-set : (xs : List A) (i : ℕ) (x v : A) → set (set xs i x) i v ≡ set xs i v
  set-set [] i x v = refl
  set-set (y ∷ xs) zero x v = refl
  set-set (y ∷ xs) (suc i) x v = rw (set-set xs i x v) refl

  pub length-set : (xs : List A) (i : ℕ) (v : A) → length (set xs i v) ≡ length xs
  length-set [] i v = refl
  length-set (y ∷ xs) zero v = refl
  length-set (y ∷ xs) (suc i) v = omega (arith, length-set xs i v)

module _ {A : Type 0} (w : A → ℕ) where
  pub at-set :
      (xs : List A) (i j : ℕ) (x v : A)
      → get_elem? xs i ≡ some x
      → at w (set xs i v) j ≡ (if i == j then w v else at w xs j)
  at-set xs i j x v e = ground (arith, get_elem?-set xs i j x v e)

  -- An element that adds 0.
  pub at-snoc_zero : (xs : List A) (v : A) (i : ℕ) → w v ≡ 0 → at w (xs ++ v ∷ []) i ≡ at w xs i
  at-snoc_zero [] v zero e = e
  at-snoc_zero [] v (suc i) e = refl
  at-snoc_zero (x ∷ xs) v zero e = refl
  at-snoc_zero (x ∷ xs) v (suc i) e = at-snoc_zero xs v i e

  pub at_bound : (xs : List A) (i : ℕ) → 0 < at w xs i → i < length xs
  at_bound [] i h = absurd (omega arith)
  at_bound (x ∷ xs) zero h = omega arith
  at_bound (x ∷ xs) (suc i) h = omega (arith, at_bound xs i h)

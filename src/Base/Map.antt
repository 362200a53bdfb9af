-- ===== src/Base/Map.antt =====
-- `std::unordered_map` as an association list with distinct keys. The program reads its order
-- nowhere.
use Prim.Native.Nat.{ℕ, ◌+◌, ◌≤◌}
use mathlib.Core.Path.{◌≡◌, refl}
use mathlib.Core.List.{List, [], ◌∷◌}
use mathlib.Core.Option.{Option, none, some}
use mathlib.Core.Option
use native.Mathlib.Omega.{arith}
use mochi_colza.Base.Tests.{if◌then◌else◌}
use mochi_colza.Base.Lists.{length}
use mochi_colza.Base.Equality.{Comparable, ◌==◌, same_self}
use mathlib.Core.Logic.{◌≢◌}

abbrev pub Map {ℓ} : Type ℓ → Type ℓ → Type ℓ
Map K V = List (K × V)

module _ {ℓ} {K V : Type ℓ} ⦃e : Comparable K⦄ where
  unfoldable pub lookup : K → Map K V → Option V
  lookup k [] = none
  lookup k ((j, v) ∷ m) = if j == k then some v else lookup k m

  unfoldable pub erase : K → Map K V → Map K V
  erase k [] = []
  erase k ((j, v) ∷ m) = let rest = erase k m in if j == k then rest else (j, v) ∷ rest

  -- m[k] = v
  unfoldable pub insert : K → V → Map K V → Map K V
  insert k v [] = (k, v) ∷ []
  insert k v ((j, w) ∷ m) = let rest = insert k v m in if j == k then (k, v) ∷ m else (j, w) ∷ rest

  -- No key twice.
  abbrev pub Distinct : Map K V → Type ℓ
  Distinct [] = Unit
  Distinct ((k, v) ∷ m) = (lookup k m ≡ none) × Distinct m

  -- A sum over the values.
  unfoldable pub total : (V → ℕ) → Map K V → ℕ
  total w [] = 0
  total w ((k, v) ∷ m) = w v + total w m

  unfoldable pub map_values : (V → V) → Map K V → Map K V
  map_values f [] = []
  map_values f ((k, v) ∷ m) = (k, f v) ∷ map_values f m

  pub lookup-insert :
      (written read : K) (v : V) (m : Map K V)
      → lookup read (insert written v m) ≡ (if written == read then some v else lookup read m)
  unfolding insert lookup
  lookup-insert written read v [] = refl
  lookup-insert written read v ((l, u) ∷ rest) = ground (
    arith,
    lookup-insert written read v rest,
    e.same_iff l written,
    e.same_iff l read,
    e.same_iff written read,
  )

  pub lookup-erase :
      (k j : K) (m : Map K V) → lookup j (erase k m) ≡ (if k == j then none else lookup j m)
  unfolding lookup erase
  lookup-erase k j [] = ground arith
  lookup-erase k j ((i, w) ∷ m) =
      ground (arith, e.same_iff k j, e.same_iff i k, e.same_iff i j, lookup-erase k j m)

  pub erase-insert : (k : K) (v : V) (m : Map K V) → erase k (insert k v m) ≡ erase k m
  unfolding erase insert
  erase-insert k v [] = ground (arith, e.same_iff k k)
  erase-insert k v ((j, w) ∷ m) = ground (arith, erase-insert k v m, e.same_iff k k, e.same_iff j k)

  pub lookup-insert_self : (k : K) (v : V) (m : Map K V) → lookup k (insert k v m) ≡ some v
  lookup-insert_self k v m = rw (lookup-insert k k v m, same_self k)

  pub lookup-erase_self : (k : K) (m : Map K V) → lookup k (erase k m) ≡ none
  lookup-erase_self k m = rw (lookup-erase k k m, same_self k)

  pub lookup-insert_ne :
      (k j : K) (v : V) (m : Map K V) → k ≢ j → lookup j (insert k v m) ≡ lookup j m
  lookup-insert_ne k j v m h = ground (arith, lookup-insert k j v m, e.same_iff k j)

  pub lookup-erase_ne : (k j : K) (m : Map K V) → k ≢ j → lookup j (erase k m) ≡ lookup j m
  lookup-erase_ne k j m h = ground (arith, lookup-erase k j m, e.same_iff k j)

  pub lookup-map_values :
      (f : V → V) (k : K) (m : Map K V) → lookup k (map_values f m) ≡ Option.map f (lookup k m)
  unfolding lookup map_values
  lookup-map_values f k [] = refl
  lookup-map_values f k ((i, w) ∷ m) = ground (arith, lookup-map_values f k m)

  pub insert-Distinct : (k : K) (v : V) (m : Map K V) → Distinct m → Distinct (insert k v m)
  unfolding lookup insert
  insert-Distinct k v [] d = (refl, tt)
  insert-Distinct k v ((i, w) ∷ m) d =
      ground
        (arith, insert-Distinct k v m d.1, lookup-insert k i v m, e.same_iff i k, e.same_iff k i)

  pub erase-Distinct : (k : K) (m : Map K V) → Distinct m → Distinct (erase k m)
  unfolding lookup erase
  erase-Distinct k [] d = tt
  erase-Distinct k ((i, w) ∷ m) d = ground (arith, erase-Distinct k m d.1, lookup-erase k i m)

  pub map_values-Distinct : (f : V → V) (m : Map K V) → Distinct m → Distinct (map_values f m)
  unfolding map_values
  map_values-Distinct f [] d = tt
  map_values-Distinct f ((i, w) ∷ m) d =
      ground (arith, map_values-Distinct f m d.1, lookup-map_values f i m)

  module _ (w : V → ℕ) where
    pub total-insert_known :
        (k : K) (s t : V) (m : Map K V)
        → lookup k m ≡ some s
        → total w (insert k t m) + w s ≡ total w m + w t
    unfolding lookup insert total
    total-insert_known k s t [] h = ground arith
    total-insert_known k s t ((i, u) ∷ m) h = ground (arith, total-insert_known k s t m)

    pub total-insert_new :
        (k : K) (t : V) (m : Map K V) → lookup k m ≡ none → total w (insert k t m) ≡ total w m + w t
    unfolding lookup insert total
    total-insert_new k t [] h = ground arith
    total-insert_new k t ((i, u) ∷ m) h = ground (arith, total-insert_new k t m)

    -- What the value under a key counts.
    abbrev pub weight_at : K → Map K V → ℕ
    weight_at k m = elim (lookup k m) [ none ↦ 0 | some s ↦ w s ]

    pub total-insert :
        (k : K) (t : V) (m : Map K V) → total w (insert k t m) + weight_at k m ≡ total w m + w t
    unfolding lookup insert total
    total-insert k t [] = ground arith
    total-insert k t ((i, u) ∷ m) = ground (arith, total-insert k t m)

    pub erase_absent : (k : K) (m : Map K V) → lookup k m ≡ none → erase k m ≡ m
    unfolding lookup erase
    erase_absent k [] h = refl
    erase_absent k ((i, u) ∷ m) h = ground (arith, erase_absent k m)

    pub total-erase :
        (k : K) (m : Map K V) → Distinct m → total w (erase k m) + weight_at k m ≡ total w m
    unfolding lookup erase total
    total-erase k [] d = ground arith
    total-erase k ((i, u) ∷ m) d =
        ground (arith, total-erase k m d.1, erase_absent k m, e.same_iff i k)

    pub total-map_values :
        (f : V → V) (m : Map K V) → ((v : V) → w (f v) ≡ w v) → total w (map_values f m) ≡ total w m
    unfolding total map_values
    total-map_values f [] h = refl
    total-map_values f ((i, u) ∷ m) h = omega (arith, h u, total-map_values f m h)

    pub weight_at-le-total : (k : K) (m : Map K V) → weight_at k m ≤ total w m
    unfolding lookup total
    weight_at-le-total k [] = ground arith
    weight_at-le-total k ((i, u) ∷ m) = ground (arith, weight_at-le-total k m)

    pub total-le-length : ((v : V) → w v ≤ 1) → (m : Map K V) → total w m ≤ length m
    unfolding total
    total-le-length h [] = omega arith
    total-le-length h ((i, u) ∷ m) = omega (arith, h u, total-le-length h m)

    -- A sum over distinct keys is 0 if every value that is found counts 0.
    pub total-eq-zero :
        (m : Map K V)
        → Distinct m
        → ((k : K) (s : V) → lookup k m ≡ some s → w s ≡ 0)
        → total w m ≡ 0
    unfolding lookup total
    total-eq-zero [] d h = refl
    total-eq-zero ((i, u) ∷ m) d h = omega (
      arith,
      h i u (rw (same_self i)),
      total-eq-zero m d.1 (λ k s found. h k s (ground (arith, e.same_iff i k))),
    )

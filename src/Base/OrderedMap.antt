-- ===== src/Base/OrderedMap.antt =====
-- `std::map` with integer keys: an association list kept in the order of its keys, which is the
-- order in which the program walks it. `lookup` and `erase` are those of `Map`.
use Prim.Native.Nat.{ℕ, ◌<◌}
use mathlib.Core.Path.{◌≡◌, refl}
use mathlib.Core.List.{List, [], ◌∷◌}
use mathlib.Core.Option.{none, some}
use native.Mathlib.Omega.{arith}
use mochi_colza.Base.Tests.{if◌then◌else◌, ltb}
use mochi_colza.Base.Equality.{◌==◌, nat_eq}
use mochi_colza.Base.Map.{Map, lookup, erase}

module _ {V : Type 0} where
  -- m[k] = v
  unfoldable pub insert : ℕ → V → Map ℕ V → Map ℕ V
  insert k v [] = (k, v) ∷ []
  insert k v ((j, w) ∷ m) =
      let rest = insert k v m in
      if j == k then (k, v) ∷ m else if ltb k j then (k, v) ∷ (j, w) ∷ m else (j, w) ∷ rest

  -- m.insert(first, last): a key that is there keeps its value.
  unfoldable pub insert_new : Map ℕ V → Map ℕ V → Map ℕ V
  unfolding insert
  insert_new [] m = m
  insert_new ((k, v) ∷ new) m =
      insert_new new (elim (lookup k m) [ none ↦ insert k v m | some _ ↦ m ])

  unfoldable pub values : Map ℕ V → List V
  values [] = []
  values ((k, v) ∷ m) = v ∷ values m

  -- The keys rise along the list, from above `b`.
  abbrev pub Above : ℕ → Map ℕ V → Type 0
  Above b [] = Unit
  Above b ((k, v) ∷ m) = (b < k) × Above k m

  abbrev pub Ascending : Map ℕ V → Type 0
  Ascending [] = Unit
  Ascending ((k, v) ∷ m) = Above k m

  pub lookup-insert :
      (written read : ℕ) (v : V) (m : Map ℕ V)
      → lookup read (insert written v m) ≡ (if written == read then some v else lookup read m)
  unfolding insert lookup
  lookup-insert written read v [] = refl
  lookup-insert written read v ((l, u) ∷ rest) = ground (arith, lookup-insert written read v rest)

  insert-Above : (b k : ℕ) (v : V) (m : Map ℕ V) → b < k → Above b m → Above b (insert k v m)
  unfolding insert
  insert-Above b k v [] h a = (h, tt)
  insert-Above b k v ((i, w) ∷ m) h a = ground (arith, insert-Above i k v m)

  pub insert-Ascending : (k : ℕ) (v : V) (m : Map ℕ V) → Ascending m → Ascending (insert k v m)
  unfolding insert
  insert-Ascending k v [] a = tt
  insert-Ascending k v ((i, w) ∷ m) a = ground (arith, insert-Above i k v m)

  Above-mono : (b c : ℕ) (m : Map ℕ V) → b < c → Above c m → Above b m
  Above-mono b c [] h a = tt
  Above-mono b c ((i, w) ∷ m) h a = (omega arith, a.1)

  erase-Above : (b k : ℕ) (m : Map ℕ V) → Above b m → Above b (erase k m)
  unfolding erase
  erase-Above b k [] a = tt
  erase-Above b k ((i, w) ∷ m) a = ground (arith, erase-Above i k m a.1, Above-mono b i (erase k m))

  pub erase-Ascending : (k : ℕ) (m : Map ℕ V) → Ascending m → Ascending (erase k m)
  unfolding erase
  erase-Ascending k [] a = tt
  erase-Ascending k ((i, w) ∷ []) a = ground arith
  erase-Ascending k ((i, w) ∷ (j, u) ∷ m) a =
      ground (arith, erase-Above i k ((j, u) ∷ m) a, erase-Ascending k ((j, u) ∷ m) a.1)

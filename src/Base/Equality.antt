-- ===== src/Base/Equality.antt =====
-- Equality tests, as an interface with the two instances that the program compares by: numbers
-- and texts.
use mathlib.Core.Bool.{Bool, true}
use mathlib.Core.Logic.{◌↔◌}
use mathlib.Core.Path.{◌≡◌, refl}
use native.Mathlib.Omega.{arith}
use Prim.Native.Nat.{ℕ}
use mochi_colza.Base.Tests.{nat_same}
use text.Mathlib.TextEquality
use text.Mathlib.Text.{◌==◌ as string_same}
use Prim.Native.String.{String}

pub nat_same_iff : (m n : ℕ) → (nat_same m n ≡ true) ↔ (m ≡ n)
nat_same_iff m n = ground arith

pub record Comparable {ℓ} (K : Type ℓ) : Type ℓ where
  pub same : K → K → Bool
  pub same_iff : (k l : K) → (same k l ≡ true) ↔ (k ≡ l)

instance abbrev pub string_eq : Comparable String
string_eq = record { same = string_same; same_iff = TextEquality.eq_iff }

instance abbrev pub nat_eq : Comparable ℕ
nat_eq = record { same = nat_same; same_iff = nat_same_iff }

-- The test that the keys of a map and the fields of a request are compared by.
infix 50 ◌==◌
abbrev pub ◌==◌ {ℓ} : {K : Type ℓ} ⦃e : Comparable K⦄ → K → K → Bool
◌==◌ ⦃e⦄ k l = e.same k l

pub same_self {ℓ} : {K : Type ℓ} ⦃e : Comparable K⦄ (k : K) → (k == k) ≡ true
same_self ⦃e⦄ k = (e.same_iff k k).1 refl

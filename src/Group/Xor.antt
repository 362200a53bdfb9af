-- ===== src/Group/Xor.antt =====
-- The laws of `^` on unsigned integers, from the recursion on binary digits that it stands for.
use Prim.Native.Nat.{differ, digits, bitwise, bit_xor-bitwise}
use native.Mathlib.Nat.{le_refl, pow-suc}
use mochi_colza.Base.{
  ℕ, zero, suc, ◌+◌, ◌-◌, ◌*◌, ◌/◌, ◌%◌, ◌^◌, ◌≤◌, ◌<◌, bit_xor, ◌≡◌, refl, ap, ◌∙◌, arith,
}

-- One more digit than the first operand has makes no difference.
spare_digit :
    (n a b : ℕ) → a ≤ n → digits (λ y. y) differ (suc n) a b ≡ digits (λ y. y) differ n a b
spare_digit zero zero b h = refl
spare_digit (suc n) zero b h = refl
spare_digit zero (suc a) b h = absurd (omega arith)
spare_digit (suc n) (suc a) b h = rw (spare_digit n (suc a / 2) (b / 2) (omega arith))

spare_digits :
    (k m n a b : ℕ)
    → m ≡ k + n
    → a ≤ n
    → digits (λ y. y) differ m a b ≡ digits (λ y. y) differ n a b
spare_digits zero m n a b e h = ap (λ (t : ℕ). digits (λ y. y) differ t a b) (omega arith)
spare_digits (suc k) zero n a b e h = absurd (omega arith)
spare_digits (suc k) (suc m) n a b e h =
    spare_digit m a b (omega arith) ∙ spare_digits k m n a b (omega arith) h

pub zero-bit_xor : (b : ℕ) → bit_xor 0 b ≡ b
zero-bit_xor b = bit_xor-bitwise 0 b

differ_lem : (x y : ℕ) → differ x y ≡ (x - y) + (y - x)
differ_lem zero y = omega arith
differ_lem (suc x) zero = omega arith
differ_lem (suc x) (suc y) = omega (arith, differ_lem x y)

-- The sum, modulo 2, of two digits.
digit_xor : ℕ → ℕ → ℕ
digit_xor a b = (a % 2 - b % 2) + (b % 2 - a % 2)

first_digit :
    (a b : ℕ)
    → bitwise (λ y. y) differ (suc a) b
      ≡ 2 * bitwise (λ y. y) differ (suc a / 2) (b / 2) + differ (suc a % 2) (b % 2)
first_digit a b =
    let fewer =
      spare_digits (a - suc a / 2) a (suc a / 2) (suc a / 2) (b / 2) (omega arith) (le_refl _) in
    omega (arith, fewer)

bit_xor_step : (a b : ℕ) → bit_xor a b ≡ bit_xor (a / 2) (b / 2) * 2 + digit_xor a b
unfolding digit_xor
bit_xor_step zero b = omega (arith, zero-bit_xor b, zero-bit_xor (b / 2))
bit_xor_step (suc a) b = omega (
  arith,
  bit_xor-bitwise (suc a) b,
  bit_xor-bitwise (suc a / 2) (b / 2),
  first_digit a b,
  differ_lem (suc a % 2) (b % 2),
)

half_bit_xor : (a b : ℕ) → bit_xor a b / 2 ≡ bit_xor (a / 2) (b / 2)
unfolding digit_xor
half_bit_xor a b = omega (arith, bit_xor_step a b)

low_bit_xor : (a b : ℕ) → bit_xor a b % 2 ≡ digit_xor a b
unfolding digit_xor
low_bit_xor a b = omega (arith, bit_xor_step a b)

comm_fuel : (n a b : ℕ) → a ≤ n → b ≤ n → bit_xor a b ≡ bit_xor b a
unfolding digit_xor
comm_fuel zero zero zero h k = refl
comm_fuel zero (suc a) b h k = absurd (omega arith)
comm_fuel zero zero (suc b) h k = absurd (omega arith)
comm_fuel (suc n) a b h k = omega (
  arith,
  bit_xor_step a b,
  bit_xor_step b a,
  comm_fuel n (a / 2) (b / 2) (omega arith) (omega arith),
)

pub bit_xor_comm : (a b : ℕ) → bit_xor a b ≡ bit_xor b a
bit_xor_comm a b = comm_fuel (a + b) a b (omega arith) (omega arith)

digit_xor_assoc : (a b c : ℕ) → digit_xor (bit_xor a b) c ≡ digit_xor a (bit_xor b c)
unfolding digit_xor
digit_xor_assoc a b c = omega (arith, low_bit_xor a b, low_bit_xor b c)

assoc_fuel : (n a b c : ℕ) → a ≤ n → bit_xor (bit_xor a b) c ≡ bit_xor a (bit_xor b c)
assoc_fuel zero zero b c h = rw (zero-bit_xor b, zero-bit_xor (bit_xor b c))
assoc_fuel zero (suc a) b c h = absurd (omega arith)
assoc_fuel (suc n) a b c h = omega (
  arith,
  bit_xor_step (bit_xor a b) c,
  bit_xor_step a (bit_xor b c),
  ap (λ (t : ℕ). bit_xor t (c / 2)) (half_bit_xor a b),
  ap (λ (t : ℕ). bit_xor (a / 2) t) (half_bit_xor b c),
  assoc_fuel n (a / 2) (b / 2) (c / 2) (omega arith),
  digit_xor_assoc a b c,
)

pub bit_xor_assoc : (a b c : ℕ) → bit_xor (bit_xor a b) c ≡ bit_xor a (bit_xor b c)
bit_xor_assoc a b c = assoc_fuel a a b c (le_refl a)

self_fuel : (n a : ℕ) → a ≤ n → bit_xor a a ≡ 0
unfolding digit_xor
self_fuel zero zero h = zero-bit_xor 0
self_fuel zero (suc a) h = absurd (omega arith)
self_fuel (suc n) a h = omega (arith, bit_xor_step a a, self_fuel n (a / 2) (omega arith))

pub bit_xor_self : (a : ℕ) → bit_xor a a ≡ 0
bit_xor_self a = self_fuel a a (le_refl a)

pub bit_xor-zero : (a : ℕ) → bit_xor a 0 ≡ a
bit_xor-zero a = bit_xor_comm a 0 ∙ zero-bit_xor a

-- No bit appears above those of the operands.
pub bit_xor-lt : (k a b : ℕ) → a < 2 ^ k → b < 2 ^ k → bit_xor a b < 2 ^ k
unfolding digit_xor
bit_xor-lt zero a b p q = ground (arith, bit_xor-zero a)
bit_xor-lt (suc k) a b p q = omega (
  arith,
  pow-suc 2 k,
  bit_xor_step a b,
  bit_xor-lt k (a / 2) (b / 2) (omega (arith, pow-suc 2 k)) (omega (arith, pow-suc 2 k)),
)

-- A second `^` by the same operand undoes the first.
pub bit_xor_cancel : (h a : ℕ) → bit_xor (bit_xor h a) a ≡ h
bit_xor_cancel h a = rw (bit_xor_assoc h a a, bit_xor_self a) (bit_xor-zero h)

pub bit_xor_right_comm : (h a b : ℕ) → bit_xor (bit_xor h a) b ≡ bit_xor (bit_xor h b) a
bit_xor_right_comm h a b = rw (bit_xor_assoc h a b, bit_xor_assoc h b a, bit_xor_comm a b)

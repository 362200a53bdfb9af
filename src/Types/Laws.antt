-- ===== src/Types/Laws.antt =====
-- src/TypeSizes.hpp: the computed size against the exact one.
use mochi_colza.Base.{ℕ, ◌+◌, ◌*◌, ◌%◌, ◌/◌, ◌^◌, ◌<◌, ◌≡◌, List, [], ◌∷◌, ◌∙◌, ap, arith}
use native.Mathlib.Nat.{mul_assoc, mul_comm}
use mochi_colza.Types.{
  DataType, int8, uint8, int16, uint16, int32, uint32, int64, uint64, float32, float64,
  dimensions_loop, scale, compute_data_size,
}

-- The bytes of one element.
abbrev pub width : DataType → ℕ
width int8 = 1
width uint8 = 1
width int16 = 2
width uint16 = 2
width int32 = 4
width uint32 = 4
width int64 = 8
width uint64 = 8
width float32 = 4
width float64 = 8

-- The number of elements.
abbrev pub product : List ℕ → ℕ
product [] = 1
product (d ∷ dimensions) = d * product dimensions

mod-mul : (x p : ℕ) → x % 2 ^ 64 * p % 2 ^ 64 ≡ x * p % 2 ^ 64
mod-mul x p =
    let parts : x ≡ 2 ^ 64 * (x / 2 ^ 64) + x % 2 ^ 64 = omega arith in
    omega (arith, ap (λ (t : ℕ). t * p) parts)

mul-mod_scale : (k x : ℕ) → k * (x % 2 ^ 64) % 2 ^ 64 ≡ k * x % 2 ^ 64
mul-mod_scale k x = rw (mul_comm k (x % 2 ^ 64), mul_comm k x) (mod-mul x k)

dimensions_loop_lem :
    (s : ℕ) (dimensions : List ℕ)
    → s < 2 ^ 64
    → dimensions_loop s dimensions ≡ s * product dimensions % 2 ^ 64
unfolding dimensions_loop
dimensions_loop_lem s [] h = omega arith
dimensions_loop_lem s (d ∷ dimensions) h =
    dimensions_loop_lem (s * d % 2 ^ 64) dimensions (omega arith)
    ∙ mod-mul (s * d) (product dimensions)
    ∙ rw (mul_assoc s d (product dimensions))

count_lem : (dimensions : List ℕ) → dimensions_loop 1 dimensions ≡ product dimensions % 2 ^ 64
count_lem dimensions = dimensions_loop_lem 1 dimensions (omega arith) ∙ omega arith

scale_lem : (type : DataType) (p : ℕ) → scale type (p % 2 ^ 64) ≡ width type * p % 2 ^ 64
unfolding scale
scale_lem int8 p = omega arith
scale_lem _ p = omega arith

-- The size is that of all elements, modulo the range of `size_t`.
pub compute_data_size_lem :
    (dimensions : List ℕ) (type : DataType)
    → compute_data_size dimensions type ≡ width type * product dimensions % 2 ^ 64
unfolding compute_data_size
compute_data_size_lem dimensions type =
    rw (count_lem dimensions) (scale_lem type (product dimensions))

-- ===== src/Types.antt =====
-- include/colza/Types.hpp and src/TypeSizes.hpp: element types and the size of a block. `size_t`
-- has 64 bits, and the products wrap.
pub mod Laws
mod Examples
use mochi_colza.Base.{ℕ, ◌*◌, ◌%◌, ◌^◌, List, [], ◌∷◌}

pub data DataType : Type 0 where
  int8 uint8 int16 uint16 int32 uint32 int64 uint64 float32 float64 : DataType

-- The loop over the dimensions, `s` being what it has gathered.
pub dimensions_loop : ℕ → List ℕ → ℕ
dimensions_loop s [] = s
dimensions_loop s (d ∷ dimensions) = dimensions_loop (s * d % 2 ^ 64) dimensions

-- The cases of the switch. The enumeration has no other value, so that `return 0` is not reached.
scale : DataType → ℕ → ℕ
scale int8 s = s
scale uint8 s = s
scale int16 s = 2 * s % 2 ^ 64
scale uint16 s = 2 * s % 2 ^ 64
scale float32 s = 4 * s % 2 ^ 64
scale int32 s = 4 * s % 2 ^ 64
scale uint32 s = 4 * s % 2 ^ 64
scale int64 s = 8 * s % 2 ^ 64
scale uint64 s = 8 * s % 2 ^ 64
scale float64 s = 8 * s % 2 ^ 64

pub compute_data_size : List ℕ → DataType → ℕ
unfolding dimensions_loop scale
compute_data_size dimensions type = scale type (dimensions_loop 1 dimensions)

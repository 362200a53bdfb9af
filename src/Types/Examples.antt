-- ===== src/Types/Examples.antt =====
-- Sizes of concrete blocks.
use mochi_colza.Base.{◌^◌, ◌≡◌, refl, [], ◌∷◌}
use mochi_colza.Types.{int16, float64, compute_data_size}

-- The block of the example clients: 32 by 54 doubles.
client_block : compute_data_size (32 ∷ 54 ∷ []) float64 ≡ 13824
unfolding compute_data_size
client_block = refl

-- A block of 2 ^ 64 bytes has size 0.
huge_block : compute_data_size (2 ^ 32 ∷ 2 ^ 31 ∷ []) int16 ≡ 0
unfolding compute_data_size
huge_block = refl

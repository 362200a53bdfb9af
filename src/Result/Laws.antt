-- ===== src/Result/Laws.antt =====
-- include/colza/ErrorCodes.hpp: the codes are distinct as integers.
use mochi_colza.Base.{◌≡◌, arith}
use mochi_colza.Result.{ErrorCode, to_int}

-- No two codes are the same integer.
pub to_int_injective : (c d : ErrorCode) → to_int c ≡ to_int d → c ≡ d
unfolding to_int
to_int_injective c d h = ground arith

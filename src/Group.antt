-- ===== src/Group.antt =====
-- src/SSGUtil.hpp: the hash of a group's membership. SSG is a library: what its group holds is an
-- argument, the list of the ids that `ssg_get_group_member_ids_from_range` writes for the ranks 0
-- to size - 1. An id is a `uint64_t`.
mod Xor
pub mod Laws
pub mod History
mod Examples
use mochi_colza.Base.{ℕ, bit_xor, List, [], ◌∷◌}

-- ssg_member_id_t
abbrev pub MemberId : Type 0
MemberId = ℕ

-- The loop of `ComputeGroupHash`.
pub hash_loop : ℕ → List MemberId → ℕ
hash_loop hash [] = hash
hash_loop hash (id ∷ ids) = hash_loop (bit_xor hash id) ids

unfoldable pub compute_group_hash : List MemberId → ℕ
unfolding hash_loop
compute_group_hash member_ids = hash_loop 0 member_ids

pub update_group_hash : ℕ → MemberId → ℕ
update_group_hash hash id = bit_xor hash id

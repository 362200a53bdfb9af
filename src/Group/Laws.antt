-- ===== src/Group/Laws.antt =====
-- src/SSGUtil.hpp: what the hash of a group depends on, and which changes it shows.
use mathlib.Core.List.{Perm, Permᴰ}
use mathlib.Core.Logic.{∥∥₁_elim}
use native.Mathlib.Nat.{ℕ_set}
use mochi_colza.Base.{
  ℕ, ◌^◌, ◌<◌, bit_xor, ◌≡◌, refl, sym, ap, ◌∙◌, ◌↔◌, ◌≡⟨◌⟩◌, ◌∎, List, [], ◌∷◌, ◌++◌, All, arith,
}
use mochi_colza.Group.Xor.{
  zero-bit_xor, bit_xor_cancel, bit_xor_right_comm, bit_xor_assoc, bit_xor_self, bit_xor-zero,
  bit_xor-lt,
}
use mochi_colza.Group.{MemberId, hash_loop, compute_group_hash, update_group_hash}

-- What the loop has gathered can be added at the end.
hash_loop_acc :
    (h : ℕ) (id : MemberId) (ids : List MemberId)
    → hash_loop (bit_xor h id) ids ≡ bit_xor (hash_loop h ids) id
unfolding hash_loop
hash_loop_acc h id [] = refl
hash_loop_acc h id (j ∷ ids) =
    ap (λ k. hash_loop k ids) (bit_xor_right_comm h id j) ∙ hash_loop_acc (bit_xor h j) id ids

update_twice : (h : ℕ) (id : MemberId) → update_group_hash (update_group_hash h id) id ≡ h
unfolding update_group_hash
update_twice = bit_xor_cancel

hash_loop-insert :
    (h : ℕ) (id : MemberId) (xs ys : List MemberId)
    → hash_loop h (xs ++ id ∷ ys) ≡ update_group_hash (hash_loop h (xs ++ ys)) id
unfolding hash_loop update_group_hash
hash_loop-insert h id [] ys = hash_loop_acc h id ys
hash_loop-insert h id (x ∷ xs) ys = hash_loop-insert (bit_xor h x) id xs ys

-- One update by the id of a member, wherever it stands in the group, adds that member to the hash,
-- and takes it out again.
pub update_group_hash-compute_group_hash :
    (id : MemberId) (xs ys : List MemberId)
    → (update_group_hash (compute_group_hash (xs ++ ys)) id ≡ compute_group_hash (xs ++ id ∷ ys))
      × (update_group_hash (compute_group_hash (xs ++ id ∷ ys)) id ≡ compute_group_hash (xs ++ ys))
unfolding compute_group_hash
update_group_hash-compute_group_hash id xs ys =
    let inserted = hash_loop-insert 0 id xs ys in
    (sym inserted, rw inserted (update_twice (hash_loop 0 (xs ++ ys)) id))

hash_loop-Permᴰ : {xs ys : List MemberId} (h : ℕ) → Permᴰ xs ys → hash_loop h xs ≡ hash_loop h ys
unfolding hash_loop
hash_loop-Permᴰ h Permᴰ.nil = refl
hash_loop-Permᴰ h (Permᴰ.cons {a} {b} {l₁} {l₂} e d) =
    ap (λ x. hash_loop (bit_xor h x) l₁) e ∙ hash_loop-Permᴰ (bit_xor h b) d
hash_loop-Permᴰ h (Permᴰ.swap {a} {b} {a'} {b'} {l} p q) =
    ap (λ k. hash_loop k l) (bit_xor_right_comm h a b ∙ rw (p, q))
hash_loop-Permᴰ h (Permᴰ.trans d e) = hash_loop-Permᴰ h d ∙ hash_loop-Permᴰ h e

-- The hash does not depend on the order in which SSG lists the members.
pub compute_group_hash-perm :
    {xs ys : List MemberId} → Perm xs ys → compute_group_hash xs ≡ compute_group_hash ys
unfolding compute_group_hash
compute_group_hash-perm p = ∥∥₁_elim p (ℕ_set _ _) (hash_loop-Permᴰ 0)

update_fixed : (h id : ℕ) → bit_xor h id ≡ h → id ≡ 0
update_fixed h id e =
    id
    ≡⟨ sym (zero-bit_xor id) ⟩ bit_xor 0 id
    ≡⟨ ap (λ k. bit_xor k id) (sym (bit_xor_self h)) ⟩ bit_xor (bit_xor h h) id
    ≡⟨ bit_xor_assoc h h id ⟩ bit_xor h (bit_xor h id)
    ≡⟨ ap (bit_xor h) e ⟩ bit_xor h h
    ≡⟨ bit_xor_self h ⟩ 0 ∎

xor_equal : (a b : ℕ) → bit_xor a b ≡ 0 → a ≡ b
xor_equal a b e =
    a
    ≡⟨ sym (bit_xor_cancel a b) ⟩ bit_xor (bit_xor a b) b
    ≡⟨ ap (λ k. bit_xor k b) e ⟩ bit_xor 0 b
    ≡⟨ zero-bit_xor b ⟩ b ∎

update_pair_fixed : (h a b : ℕ) → bit_xor (bit_xor h a) b ≡ h → a ≡ b
update_pair_fixed h a b e =
    xor_equal a b (update_fixed h (bit_xor a b) (sym (bit_xor_assoc h a b) ∙ e))

-- One change of the membership leaves the hash as it was exactly when the id is 0, and two
-- changes exactly when they are of the same member.
pub update_group_hash_detects :
    (hash a b : ℕ)
    → ((update_group_hash hash a ≡ hash) ↔ (a ≡ 0))
      × ((update_group_hash (update_group_hash hash a) b ≡ hash) ↔ (a ≡ b))
unfolding update_group_hash
update_group_hash_detects hash a b = (
  (update_fixed hash a, λ e. rw e (bit_xor-zero hash)),
  (update_pair_fixed hash a b, λ e. rw e (bit_xor_cancel hash b)),
)

hash_loop-lt :
    (h : ℕ) (ids : List MemberId)
    → h < 2 ^ 64
    → All (λ id. id < 2 ^ 64) ids
    → hash_loop h ids < 2 ^ 64
unfolding hash_loop
hash_loop-lt h [] p q = p
hash_loop-lt h (id ∷ ids) p q = hash_loop-lt (bit_xor h id) ids (bit_xor-lt 64 h id p q.0) q.1

-- The hash of a group of `uint64_t` ids is a `uint64_t`: no step of the loop wraps.
pub compute_group_hash-lt :
    (ids : List MemberId) → All (λ id. id < 2 ^ 64) ids → compute_group_hash ids < 2 ^ 64
unfolding compute_group_hash
compute_group_hash-lt ids q = hash_loop-lt 0 ids (omega arith) q

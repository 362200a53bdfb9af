-- ===== src/Group/History.antt =====
-- src/SSGUtil.hpp and the first lines of `_membershipUpdate` in src/ProviderImpl.hpp: the running
-- hash of a provider, against the group that SSG would list.
use mochi_colza.Base.{ℕ, ◌≡◌, refl, ap, ◌∙◌, List, [], ◌∷◌, ◌++◌}
use mochi_colza.Group.{MemberId, compute_group_hash, update_group_hash}
use mochi_colza.Group.Laws.{update_group_hash-compute_group_hash}

-- SSG adds the member at any place of its list, or takes it out, and reports the id.
pub data Change (before : List MemberId) (id : MemberId) (after : List MemberId) : Type 0 where
  joined :
      (xs ys : List MemberId) → before ≡ xs ++ ys → after ≡ xs ++ id ∷ ys → Change before id after
  departed :
      (xs ys : List MemberId) → before ≡ xs ++ id ∷ ys → after ≡ xs ++ ys → Change before id after

-- The ids that SSG reports while a group goes from `before` to `after`, in order.
pub data History : List MemberId → List MemberId → List MemberId → Type 0 where
  unchanged : (members : List MemberId) → History members [] members
  changed :
      {before between after reported : List MemberId} {id : MemberId}
      → Change before id between
      → History between reported after
      → History before (id ∷ reported) after

-- The callback, run for one report after another.
pub update_all : ℕ → List MemberId → ℕ
update_all hash [] = hash
update_all hash (id ∷ ids) = update_all (update_group_hash hash id) ids

pub Change-hash :
    {before after : List MemberId} {id : MemberId}
    → Change before id after
    → update_group_hash (compute_group_hash before) id ≡ compute_group_hash after
Change-hash {id} (joined xs ys e f) = rw (e, f) (update_group_hash-compute_group_hash id xs ys).0
Change-hash {id} (departed xs ys e f) = rw (e, f) (update_group_hash-compute_group_hash id xs ys).1

-- A provider that starts from the hash of the group and is told of every change has, after any
-- history of members that join and leave, the hash that `ComputeGroupHash` gives for the group.
pub History-hash :
    {before reported after : List MemberId}
    → History before reported after
    → update_all (compute_group_hash before) reported ≡ compute_group_hash after
unfolding update_all
History-hash (unchanged members) = refl
History-hash (changed {reported} c h) =
    ap (λ k. update_all k reported) (Change-hash c) ∙ History-hash h

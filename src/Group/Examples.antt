-- ===== src/Group/Examples.antt =====
-- The theorems on group hashes at concrete groups.
use mochi_colza.Base.{◌≡◌, refl, [], ◌∷◌}
use mochi_colza.Group.{compute_group_hash}
use mochi_colza.Group.History.{joined, departed, unchanged, changed, update_all, History-hash}

three_members : compute_group_hash (5 ∷ 9 ∷ 12 ∷ []) ≡ 0
unfolding compute_group_hash
three_members = refl

History-hash_example :
    update_all (compute_group_hash (5 ∷ 9 ∷ [])) (10 ∷ 5 ∷ []) ≡ compute_group_hash (9 ∷ 10 ∷ [])
History-hash_example = History-hash (
    changed (joined (5 ∷ 9 ∷ []) [] refl refl)
      (changed (departed [] (9 ∷ 10 ∷ []) refl refl) (unchanged (9 ∷ 10 ∷ []))))

-- ===== src/Provider/Threads/Updating.antt =====
-- src/ProviderImpl.hpp: a membership update among other handlers changes no phase.
use mochi_colza.Base.{
  nat_eq, string_eq, String, ℕ, ◌≡◌, refl, ◌∙◌, List, [], ◌∷◌, arith, get_elem?, inl, inr,
  Option-cases,
}
use mochi_colza.Base.Map.{Map}
use mochi_colza.Backend.{Backend, NaAddr}
use mochi_colza.Provider.State.{PipelineState}
use mochi_colza.Provider.Invariant.{weight}
use mochi_colza.Provider.Threads.{update_object, update_named}
use mochi_colza.Provider.Threads.Sums.{sum, at, sum-set, at-set}

module _ {B : Type 0} (backend : Backend B) (addresses : List NaAddr) where
  at-update_object :
      (o j : ℕ) (objects : List (PipelineState B))
      → at weight (update_object backend addresses o objects) j ≡ at weight objects j
  unfolding update_object
  at-update_object o j objects = elim (Option-cases (get_elem? objects o)) [
    | inl nothing ↦ ground (arith, nothing)
    | inr (state, held) ↦
        let new = record state {
          pipeline = backend.update_mona_addresses addresses state.pipeline;
        } in
        ground (arith, held, at-set weight objects o j state new held)
  ]

  sum-update_object :
      (o : ℕ) (objects : List (PipelineState B))
      → sum weight (update_object backend addresses o objects) ≡ sum weight objects
  unfolding update_object
  sum-update_object o objects = elim (Option-cases (get_elem? objects o)) [
    | inl nothing ↦ ground (arith, nothing)
    | inr (state, held) ↦
        let new = record state {
          pipeline = backend.update_mona_addresses addresses state.pipeline;
        } in
        ground (arith, held, sum-set weight objects o state new held)
  ]

  pub at-update_named :
      (names : Map String ℕ) (j : ℕ) (objects : List (PipelineState B))
      → at weight (update_named backend addresses names objects) j ≡ at weight objects j
  unfolding update_named
  at-update_named [] j objects = refl
  at-update_named ((name, o) ∷ names) j objects =
      at-update_named names j (update_object backend addresses o objects)
      ∙ at-update_object o j objects

  pub sum-update_named :
      (names : Map String ℕ) (objects : List (PipelineState B))
      → sum weight (update_named backend addresses names objects) ≡ sum weight objects
  unfolding update_named
  sum-update_named [] objects = refl
  sum-update_named ((name, o) ∷ names) objects =
      sum-update_named names (update_object backend addresses o objects)
      ∙ sum-update_object o objects

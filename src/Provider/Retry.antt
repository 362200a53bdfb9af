-- ===== src/Provider/Retry.antt =====
-- src/ProviderImpl.hpp: `abort`, and the iterations that can be started after it.
use mochi_colza.Base.{
  ℕ, ◌^◌, ◌<◌, ◌≡◌, refl, inr, true, false, some, arith, String, nat_eq, string_eq,
}
use mochi_colza.Base.Map.{lookup, lookup-insert_self}
use mochi_colza.Backend.{Backend}
use mochi_colza.Provider.State.{PipelineState, Provider, decrement}
use mochi_colza.Provider.Iterations.{start, abort}
use mochi_colza.Provider.Phases.{running, phase}
use mochi_colza.Provider.Outcomes.{start_accepts}

module _ {B J : Type 0} (backend : Backend B) (p : Provider B J) (name : String) (i : ℕ) where
  aborted_state :
      (s : PipelineState B)
      → lookup name p.pipelines ≡ some s
      → s.active ≡ true
      → s.iteration ≡ i
      → lookup name (abort backend p name i).0.pipelines
        ≡ some (record {
          pipeline = backend.abort i s.pipeline;
          active = false;
          iteration = decrement i;
        })
  unfolding abort
  aborted_state s found busy at = grind (arith, lookup-insert_self)

  -- An iteration other than 0 that was aborted can be started again, if the backend agrees: the
  -- client that saw an outdated view of the group can try the same iteration with the right view.
  pub start-abort :
      (s : PipelineState B)
      → lookup name p.pipelines ≡ some s
      → s.active ≡ true
      → s.iteration ≡ i
      → 0 < i
      → i < 2 ^ 64
      → (backend.start i (backend.abort i s.pipeline)).1.success ≡ true
      → let q = (abort backend p name i).0 in (start backend q q.group_hash name i).1.success ≡ true
  start-abort s found busy at positive small agrees =
      let q = (abort backend p name i).0 in
      start_accepts backend q q.group_hash name i _ refl (aborted_state s found busy at)
        (refl, inr (omega arith), agrees)

module _ {B J : Type 0} (backend : Backend B) (p : Provider B J) (name : String) where
  -- After an abort of iteration 0 no iteration can be started any more: the iteration number has
  -- wrapped to the largest one.
  pub abort_zero_blocks_start :
      phase p name ≡ some (running 0)
      → (hash j : ℕ) → j < 2 ^ 64
      → (start backend (abort backend p name 0).0 hash name j).1.success ≡ false
  unfolding abort start
  abort_zero_blocks_start busy hash j small = grind (arith, lookup-insert_self)

-- ===== src/Provider/Overwrite.antt =====
-- src/ProviderImpl.hpp: `createPipeline` under the name of a pipeline that is active.
use mochi_colza.Base.{
  ℕ, suc, ◌+◌, ◌^◌, ◌<◌, ◌≡◌, true, Option, none, some, List, arith, String, nat_eq, string_eq,
  length,
}
use mochi_colza.Base.Map.{total-insert, insert-Distinct, total-le-length}
use mochi_colza.Result.{Exception}
use mochi_colza.Backend.{Backend, Creation, created}
use mochi_colza.Provider.State.{Provider}
use mochi_colza.Provider.Pipelines.{
  Host, Loading, loaded, not_loaded, install, finish_creation, finish_loading, create_pipeline_impl,
  report, create_pipeline,
}
use mochi_colza.Provider.Iterations.{leave}
use mochi_colza.Provider.Invariant.{weight, is_active, Counts, Inv}
use mochi_colza.Provider.Requests.{Request, run, AreCareful}
use mochi_colza.Provider.Histories.{run-Counts, weight_le}

-- Either the creation failed, or the counter is one too high.
abbrev Overshoots : {B J : Type 0} → ℕ → Provider B J × Option Exception → Type 0
Overshoots k (p, none) = Counts (suc k) p
Overshoots k (p, some e) = Unit

module _ {B J : Type 0} {k : ℕ} (backend : Backend B) (p : Provider B J) (name : String) where
  install_over :
      (b : B) → Counts k p → is_active p name ≡ true → Counts (suc k) (install backend p name b)
  unfolding install
  install_over b v h = grind (arith, total-insert {K = String} weight name, insert-Distinct)

  finish_creation_over :
      (type : String) (c : Creation B)
      → Counts k p
      → is_active p name ≡ true
      → Overshoots k (finish_creation backend p name type c)
  unfolding finish_creation
  finish_creation_over type (created b) v h = install_over b v h
  finish_creation_over type _ v h = tt

module _ {B J : Type 0} {k : ℕ} (backend : Backend B) (host : Host B J) (p : Provider B J)
    (name : String) where
  finish_loading_over :
      (type : String) (config : J) (l : Loading B J)
      → Counts k p
      → is_active p name ≡ true
      → Overshoots k (finish_loading backend host p name type config l)
  unfolding finish_loading
  finish_loading_over type config (not_loaded message) v h = tt
  finish_loading_over type config (loaded create_fn) v h =
      finish_creation_over backend (record p { create_fn = create_fn }) name type _
        (record { distinct = v.distinct; counted = v.counted }) h

report_success :
    {B J : Type 0} {k : ℕ} (r : Provider B J × Option Exception)
    → Overshoots k r
    → (report r).1.success ≡ true
    → Counts (suc k) (report r).0
unfolding report
report_success (p, none) v h = v
report_success (p, some e) v h = cc

module _ {B J : Type 0} (backend : Backend B) (host : Host B J) (p : Provider B J) where
  create_pipeline_over :
      {k : ℕ} (token name type config library : String)
      → Counts k p
      → is_active p name ≡ true
      → (create_pipeline backend host p token name type config library).1.success ≡ true
      → Counts (suc k) (create_pipeline backend host p token name type config library).0
  unfolding create_pipeline create_pipeline_impl
  create_pipeline_over {k} token name type config library v h done =
      grind (arith, report_success {k = k}, finish_loading_over {k = k} backend host p name type)

  -- A pipeline created over an active one is never counted down again: however the provider is
  -- used from then on, short of another request, even a refused one, to create a pipeline over an
  -- active one, `leave` waits for ever, also when no pipeline is active any more. The invariant holds
  -- before, and there are fewer than 2^64 - 1 pipelines.
  pub create_over_active_blocks_leave :
      (token name type config library : String) (rs : List Request)
      → let q = (create_pipeline backend host p token name type config library).0 in
        Inv p
        → is_active p name ≡ true
        → (create_pipeline backend host p token name type config library).1.success ≡ true
        → AreCareful backend host q rs
        → length (run backend host q rs).pipelines + 1 < 2 ^ 64
        → leave (run backend host q rs) ≡ none
  unfolding leave
  create_over_active_blocks_leave token name type config library rs v h done careful few =
      let q = (create_pipeline backend host p token name type config library).0 in
      let after =
        run-Counts backend host q rs (create_pipeline_over token name type config library v h done)
          careful in
      ground
        (arith, after.counted, total-le-length weight weight_le (run backend host q rs).pipelines)

-- ===== src/Provider/Invariant.antt =====
-- src/ProviderImpl.hpp: what holds between two handlers. The map has each name once, and
-- `m_num_active_pipelines` counts the active pipelines.
use mochi_colza.Base.{
  ℕ, ◌+◌, ◌%◌, ◌^◌, ◌≡◌, refl, Bool, false, Option, none, some, arith, String, if◌then◌else◌,
  nat_eq, string_eq,
}
use mochi_colza.Base.Map.{
  total, lookup, Distinct, total-insert, insert-Distinct, total-erase, erase-Distinct,
}
use mochi_colza.Result.{Exception}
use mochi_colza.Backend.{Backend, StageArgs, Creation, created}
use mochi_colza.Provider.State.{PipelineState, Provider}
use mochi_colza.Provider.Iterations.{started, start, stage, execute, cleanup, abort}
use mochi_colza.Provider.Pipelines.{
  Host, install, finish_creation, create_pipeline_impl, report, create_pipeline, destroy_pipeline,
  Loading, loaded, not_loaded, finish_loading,
}

abbrev pub weight : {B : Type 0} → PipelineState B → ℕ
weight s = if s.active then 1 else 0

module _ {B J : Type 0} where
  -- The number of active pipelines.
  abbrev pub active_count : Provider B J → ℕ
  active_count p = total weight p.pipelines

  abbrev pub is_active : Provider B J → String → Bool
  is_active p name = elim (lookup name p.pipelines) [ none ↦ false | some s ↦ s.active ]

  -- The counter, a `size_t` that wraps, stands k above the number of active pipelines.
  pub record Counts (k : ℕ) (p : Provider B J) : Type 0 where
    pub distinct : Distinct p.pipelines
    pub counted : p.num_active_pipelines ≡ (active_count p + k) % 2 ^ 64

  -- The counter is right.
  abbrev pub Inv : Provider B J → Type 0
  Inv = Counts 0

module _ {B J : Type 0} {k : ℕ} (backend : Backend B) (p : Provider B J) where
  pub start-Counts :
      (hash : ℕ) (name : String) (iteration : ℕ)
      → Counts k p
      → Counts k (start backend p hash name iteration).0
  unfolding start started
  start-Counts hash name iteration v =
      grind (arith, total-insert {K = String} weight name, insert-Distinct)

  pub stage-Counts :
      (name : String) (args : StageArgs) → Counts k p → Counts k (stage backend p name args).0
  unfolding stage
  stage-Counts name args v = grind (arith, total-insert {K = String} weight name, insert-Distinct)

  pub execute-Counts :
      (name : String) (iteration : ℕ) (auto_cleanup : Bool)
      → Counts k p
      → Counts k (execute backend p name iteration auto_cleanup).0
  unfolding execute
  execute-Counts name iteration auto_cleanup v =
      grind (arith, total-insert {K = String} weight name, insert-Distinct)

  pub cleanup-Counts :
      (name : String) (iteration : ℕ) → Counts k p → Counts k (cleanup backend p name iteration).0
  unfolding cleanup
  cleanup-Counts name iteration v =
      grind (arith, total-insert {K = String} weight name, insert-Distinct)

  pub abort-Counts :
      (name : String) (iteration : ℕ) → Counts k p → Counts k (abort backend p name iteration).0
  unfolding abort
  abort-Counts name iteration v =
      grind (arith, total-insert {K = String} weight name, insert-Distinct)

  pub destroy_pipeline-Counts :
      (token name : String) → Counts k p → Counts k (destroy_pipeline backend p token name).0
  unfolding destroy_pipeline
  destroy_pipeline-Counts token name v =
      grind (arith, total-erase {K = String} weight name, erase-Distinct)

  pub install-Counts :
      (name : String) (b : B)
      → Counts k p
      → is_active p name ≡ false
      → Counts k (install backend p name b)
  unfolding install
  install-Counts name b v h = grind (arith, total-insert {K = String} weight name, insert-Distinct)

  finish_creation-Counts :
      (name type : String) (c : Creation B)
      → Counts k p
      → is_active p name ≡ false
      → Counts k (finish_creation backend p name type c).0
  unfolding finish_creation
  finish_creation-Counts name type (created b) v h = install-Counts name b v h
  finish_creation-Counts name type _ v h = v

report-state : {B J : Type 0} (r : Provider B J × Option Exception) → (report r).0 ≡ r.0
unfolding report
report-state (p, none) = refl
report-state (p, some e) = refl

module _ {B J : Type 0} {k : ℕ} (backend : Backend B) (host : Host B J) (p : Provider B J) where
  finish_loading-Counts :
      (name type : String) (config : J) (l : Loading B J)
      → Counts k p
      → is_active p name ≡ false
      → Counts k (finish_loading backend host p name type config l).0
  unfolding finish_loading
  finish_loading-Counts name type config (not_loaded message) v h = v
  finish_loading-Counts name type config (loaded create_fn) v h =
      finish_creation-Counts backend (record p { create_fn = create_fn }) name type _
        (record { distinct = v.distinct; counted = v.counted }) h

  pub create_pipeline_impl-Counts :
      (name type : String) (config : J) (library : String)
      → Counts k p
      → is_active p name ≡ false
      → Counts k (create_pipeline_impl backend host p name type config library).0
  unfolding create_pipeline_impl
  create_pipeline_impl-Counts name type config library v h =
      finish_loading-Counts name type config _ v h

  pub create_pipeline-Counts :
      (token name type config library : String)
      → Counts k p
      → is_active p name ≡ false
      → Counts k (create_pipeline backend host p token name type config library).0
  unfolding create_pipeline
  create_pipeline-Counts token name type config library v h =
      grind (arith, create_pipeline_impl-Counts, report-state)

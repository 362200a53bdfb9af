-- ===== src/Provider/Outcomes.antt =====
-- src/ProviderImpl.hpp: which requests are accepted, and what a refused one leaves behind.
use mochi_colza.Base.{
  ℕ, ◌^◌, ◌<◌, ◌≡◌, refl, ◌≢◌, ◌↔◌, ◌⊎◌, inl, inr, Bool, true, false, Option, none, some, arith,
  String, Option-cases, nat_eq, string_eq,
}
use mochi_colza.Base.Map.{lookup, lookup-insert_self}
use mochi_colza.Result.{
  to_int, pipeline_not_active, invalid_iteration, invalid_pipeline_name, Exception,
}
use mochi_colza.Backend.{Backend, StageArgs, Creation, created, Registry}
use mochi_colza.Provider.State.{PipelineState, Provider, Response}
use mochi_colza.Provider.Iterations
use mochi_colza.Provider.Phases.{running, phase}
use mochi_colza.Provider.Pipelines.{
  Host, create_pipeline, check_pipeline, report, Loading, loaded, not_loaded, finish_loading,
  finish_creation, create_pipeline_impl,
}
use mochi_colza.Provider.Requests.{
  Request, create, destroy, check, start, stage, execute, cleanup, abort, serve, target,
}

module _ {B J : Type 0} (backend : Backend B) (p : Provider B J) where
  -- What `start` asks of the state of the pipeline, and of its backend.
  abbrev pub IsStartable : PipelineState B → ℕ → Type 0
  IsStartable s i =
      (s.active ≡ false)
      × ((s.iteration ≡ 0) ⊎ (s.iteration < i))
      × ((backend.start i s.pipeline).1.success ≡ true)

  start_accepted :
      (hash : ℕ) (name : String) (i : ℕ)
      → (Iterations.start backend p hash name i).1.success ≡ true
      → (hash ≡ p.group_hash)
        × ((s : PipelineState B) × (lookup name p.pipelines ≡ some s) × IsStartable s i)
  unfolding Iterations.start
  start_accepted hash name i e = elim (Option-cases (lookup name p.pipelines)) [
    | inl missing ↦ absurd (ground arith)
    | inr (s, found) ↦ (ground arith, (s, found, ground arith))
  ]

  pub start_accepts :
      (hash : ℕ) (name : String) (i : ℕ) (s : PipelineState B)
      → hash ≡ p.group_hash
      → lookup name p.pipelines ≡ some s
      → IsStartable s i
      → (Iterations.start backend p hash name i).1.success ≡ true
  unfolding Iterations.start
  start_accepts hash name i s e found startable = ground arith

  -- `start` succeeds exactly when the client's hash is that of the provider, the pipeline exists and
  -- is idle, its iteration number is 0 or below the new one, and its backend agrees.
  pub start_accepts_iff :
      (hash : ℕ) (name : String) (i : ℕ)
      → ((Iterations.start backend p hash name i).1.success ≡ true) ↔ (
          (hash ≡ p.group_hash)
          × ((s : PipelineState B) × (lookup name p.pipelines ≡ some s) × IsStartable s i))
  start_accepts_iff hash name i = (
    start_accepted hash name i,
    λ (e, (s, found, startable)). start_accepts hash name i s e found startable,
  )

  -- The code of a pipeline that does not run iteration i.
  abbrev pub IsOutOfTurn : Response B J → Type 0
  IsOutOfTurn r =
      (r.0 ≡ p)
      × (r.1.success ≡ false)
      × ((r.1.value ≡ some (to_int invalid_pipeline_name))
          ⊎ (r.1.value ≡ some (to_int pipeline_not_active))
          ⊎ (r.1.value ≡ some (to_int invalid_iteration)))

  -- While a pipeline does not run iteration i, the requests to stage, execute, clean up and abort
  -- that iteration change nothing, reach no backend, and are refused with one of three codes.
  pub IsOutOfTurn-refused :
      (name : String) (i : ℕ) (args : StageArgs) (auto_cleanup : Bool)
      → phase p name ≢ some (running i)
      → args.iteration ≡ i
      → IsOutOfTurn (Iterations.stage backend p name args)
        × IsOutOfTurn (Iterations.execute backend p name i auto_cleanup)
        × IsOutOfTurn (Iterations.cleanup backend p name i)
        × IsOutOfTurn (Iterations.abort backend p name i)
  unfolding Iterations.stage Iterations.execute Iterations.cleanup Iterations.abort
  IsOutOfTurn-refused name i args auto_cleanup out e =
      (ground arith, ground arith, ground arith, ground arith)

-- Either the creation succeeded, or it left the map and the counter alone.
abbrev KeepsOnFailure : {B J : Type 0} → Provider B J → Provider B J × Option Exception → Type 0
KeepsOnFailure p (q, none) = Unit
KeepsOnFailure p (q, some e) =
    (q.pipelines ≡ p.pipelines) × (q.num_active_pipelines ≡ p.num_active_pipelines)

module _ {B J : Type 0} (backend : Backend B) (host : Host B J) (p : Provider B J) where
  finish_creation_failure :
      (create_fn : Registry B J) (name type : String) (c : Creation B)
      → KeepsOnFailure p (finish_creation backend (record p { create_fn = create_fn }) name type c)
  unfolding finish_creation
  finish_creation_failure create_fn name type (created b) = tt
  finish_creation_failure create_fn name type _ = (refl, refl)

  finish_loading_failure :
      (name type : String) (config : J) (l : Loading B J)
      → KeepsOnFailure p (finish_loading backend host p name type config l)
  unfolding finish_loading
  finish_loading_failure name type config (not_loaded message) = (refl, refl)
  finish_loading_failure name type config (loaded create_fn) =
      finish_creation_failure create_fn name type _

  report_failure :
      (r : Provider B J × Option Exception)
      → KeepsOnFailure p r
      → (report r).1.success ≡ false
      → ((report r).0.pipelines ≡ p.pipelines)
        × ((report r).0.num_active_pipelines ≡ p.num_active_pipelines)
  unfolding report
  report_failure (q, none) keeps e = cc
  report_failure (q, some x) keeps e = keeps

  -- A creation that fails leaves the map of pipelines and the counter as they were.
  pub create_pipeline_failure :
      (token name type config library : String)
      → let r = create_pipeline backend host p token name type config library in
        r.1.success ≡ false
        → (r.0.pipelines ≡ p.pipelines) × (r.0.num_active_pipelines ≡ p.num_active_pipelines)
  unfolding create_pipeline create_pipeline_impl
  create_pipeline_failure token name type config library e =
      grind (arith, report_failure, finish_loading_failure name type)

module _ {B J : Type 0} (backend : Backend B) (host : Host B J) (p : Provider B J) where
  -- What the clients of a pipeline see, and the counter.
  abbrev pub SameView : Provider B J → String → Type 0
  SameView q name =
      (phase q name ≡ phase p name) × (q.num_active_pipelines ≡ p.num_active_pipelines)

  create_failure_keeps_phase :
      (token name type config library : String)
      → let r = create_pipeline backend host p token name type config library in
        r.1.success ≡ false → SameView r.0 name
  create_failure_keeps_phase token name type config library e =
      let kept = create_pipeline_failure backend host p token name type config library e in
      (rw (kept.0, phase), kept.1)

  -- A request that fails, unless it is to destroy a pipeline, leaves the phase of the pipeline and
  -- the counter of active ones as they were. The backend may have changed its own state.
  pub failure_keeps_phase :
      (r : Request)
      → p.num_active_pipelines < 2 ^ 64
      → ((token name : String) → r ≢ destroy token name)
      → (serve backend host p r).1.success ≡ false
      → SameView (serve backend host p r).0 (target r)
  unfolding serve check_pipeline Iterations.start Iterations.stage Iterations.execute
      Iterations.cleanup Iterations.abort
  failure_keeps_phase (create token name type config library) small other e =
      create_failure_keeps_phase token name type config library e
  failure_keeps_phase (destroy token name) small other e = absurd (other token name refl)
  failure_keeps_phase (check name) small other e = grind arith
  failure_keeps_phase (start hash name i) small other e = grind (arith, lookup-insert_self)
  failure_keeps_phase (stage name args) small other e = grind (arith, lookup-insert_self)
  failure_keeps_phase (execute name i auto_cleanup) small other e =
      grind (arith, lookup-insert_self)
  failure_keeps_phase (cleanup name i) small other e = grind (arith, lookup-insert_self)
  failure_keeps_phase (abort name i) small other e = grind (arith, lookup-insert_self)

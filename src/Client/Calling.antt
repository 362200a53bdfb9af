-- ===== src/Client/Calling.antt =====
-- src/DistributedPipelineHandle.cpp: what one call to start or to abort does to the phases of all
-- the pipelines of the system.
use mochi_colza.Base.{
  ℕ, ◌≡◌, Bool, true, false, Option, none, some, arith, String, ℤ, ◌==◌, nat_eq, string_eq, ◌&&◌,
}
use mochi_colza.Base.Map.{lookup, lookup-insert, lookup-insert_self}
use mochi_colza.Result.{RequestResult}
use mochi_colza.Backend.{Backend}
use mochi_colza.Provider.State.{PipelineState, Provider, decrement}
use mochi_colza.Provider.Pipelines.{Host}
use mochi_colza.Provider.Iterations
use mochi_colza.Provider.Requests
use mochi_colza.Provider.Phases.{Phase, idle, running, phase}
use mochi_colza.Client.Network.{ProviderHandle, answered, Network, call, handle_eq}
use mochi_colza.Client.PipelineHandle.{PipelineHandleImpl}

-- A pipeline in the system: the provider and the name.
abbrev pub same_pipeline : PipelineHandleImpl → PipelineHandleImpl → Bool
same_pipeline p q = (p.ph == q.ph) && (p.name == q.name)

abbrev pub phase_at : {B J : Type 0} → Network B J → PipelineHandleImpl → Option Phase
phase_at net q = elim (lookup q.ph net) [ none ↦ none | some provider ↦ phase provider q.name ]

abbrev pub running_at : {B J : Type 0} → Network B J → PipelineHandleImpl → Bool
running_at net q = elim (phase_at net q) [ some (running n) ↦ true | _ ↦ false ]

module _ {B J : Type 0} (backend : Backend B) (host : Host B J) (net : Network B J)
    (p q : PipelineHandleImpl) (i : ℕ) where
  pub start_elsewhere :
      (hash : ℕ)
      → same_pipeline p q ≡ false
      → phase_at (call backend host net p.ph (Requests.start hash p.name i)).0 q ≡ phase_at net q
  unfolding call Iterations.start
  start_elsewhere hash h = grind (
    arith,
    handle_eq.same_iff p.ph q.ph,
    string_eq.same_iff p.name q.name,
    lookup-insert {K = ProviderHandle} {V = Provider B J},
    lookup-insert {K = String} {V = PipelineState B},
  )

  -- A start that succeeds finds the pipeline idle, and leaves it running; one that fails
  -- leaves the phase as it was.
  pub start_here :
      (hash : ℕ) (r : RequestResult ℤ)
      → same_pipeline p q ≡ true
      → let (after, reply) = call backend host net p.ph (Requests.start hash p.name i) in
        reply ≡ answered r
        → (r.success ≡ true → (phase_at after q ≡ some (running i)) × (running_at net q ≡ false))
          × (r.success ≡ false → phase_at after q ≡ phase_at net q)
  unfolding call Iterations.start
  start_here hash r h e = (
    (λ success. grind (
      arith,
      handle_eq.same_iff p.ph q.ph,
      string_eq.same_iff p.name q.name,
      lookup-insert_self {K = ProviderHandle} {V = Provider B J},
      lookup-insert_self {K = String} {V = PipelineState B},
    )),
    λ failure. grind (
      arith,
      handle_eq.same_iff p.ph q.ph,
      string_eq.same_iff p.name q.name,
      lookup-insert_self {K = ProviderHandle} {V = Provider B J},
      lookup-insert_self {K = String} {V = PipelineState B},
    ),
  )

  pub abort_elsewhere :
      same_pipeline p q ≡ false
      → phase_at (call backend host net p.ph (Requests.abort p.name i)).0 q ≡ phase_at net q
  unfolding call Iterations.abort
  abort_elsewhere h = grind (
    arith,
    handle_eq.same_iff p.ph q.ph,
    string_eq.same_iff p.name q.name,
    lookup-insert {K = ProviderHandle} {V = Provider B J},
    lookup-insert {K = String} {V = PipelineState B},
  )

  pub abort_here :
      same_pipeline p q ≡ true
      → phase_at net q ≡ some (running i)
      → phase_at (call backend host net p.ph (Requests.abort p.name i)).0 q
        ≡ some (idle (decrement i))
  unfolding call Iterations.abort
  abort_here h e = grind (
    arith,
    handle_eq.same_iff p.ph q.ph,
    string_eq.same_iff p.name q.name,
    lookup-insert_self {K = ProviderHandle} {V = Provider B J},
    lookup-insert_self {K = String} {V = PipelineState B},
  )

  -- An abort never starts a pipeline.
  pub abort_stays :
      running_at net q ≡ false
      → running_at (call backend host net p.ph (Requests.abort p.name i)).0 q ≡ false
  unfolding call Iterations.abort
  abort_stays h = grind (
    arith,
    handle_eq.same_iff p.ph q.ph,
    string_eq.same_iff p.name q.name,
    lookup-insert {K = ProviderHandle} {V = Provider B J},
    lookup-insert {K = String} {V = PipelineState B},
  )

-- ===== src/Client/Serving.antt =====
-- src/ProviderImpl.hpp: the requests of an iteration where the pipeline is ready for them and its
-- backend agrees.
use mochi_colza.Base.{
  ℕ, ◌<◌, ◌≡◌, ◌⊎◌, true, false, Option, none, some, List, All, arith, String, ℤ, nat_eq, string_eq,
}
use mochi_colza.Base.Map.{lookup, lookup-insert_self}
use mochi_colza.Result.{RequestResult}
use mochi_colza.Backend.{Backend, StageArgs}
use mochi_colza.Provider.State.{PipelineState, Provider}
use mochi_colza.Provider.Pipelines.{Host}
use mochi_colza.Provider.Iterations
use mochi_colza.Provider.Requests.{Request}
use mochi_colza.Provider.Phases.{Phase, idle, running, phase_of}
use mochi_colza.Client.Network.{answered, Network, call, handle_eq}
use mochi_colza.Client.PipelineHandle.{PipelineHandleImpl}

-- The hash of a provider, and the phase of one of its pipelines.
abbrev pub status_of : {B J : Type 0} → Provider B J → String → Option (ℕ × Phase)
status_of provider name = elim (lookup name provider.pipelines) [
  | none ↦ none
  | some s ↦ some (provider.group_hash, phase_of s)
]

abbrev pub status_at : {B J : Type 0} → Network B J → PipelineHandleImpl → Option (ℕ × Phase)
status_at net q = elim (lookup q.ph net) [ none ↦ none | some provider ↦ status_of provider q.name ]

abbrev pub AllAt : {B J : Type 0} → Network B J → ℕ → Phase → List PipelineHandleImpl → Type 0
AllAt net hash f ps = All (λ q. status_at net q ≡ some (hash, f)) ps

-- A backend that agrees to everything.
pub record IsWilling {B : Type 0} (backend : Backend B) : Type 0 where
  pub start_agrees : (i : ℕ) (b : B) → (backend.start i b).1.success ≡ true
  pub stage_agrees : (args : StageArgs) (b : B) → (backend.stage args b).1.success ≡ true
  pub execute_agrees : (i : ℕ) (b : B) → (backend.execute i b).1.success ≡ true
  pub cleanup_agrees : (i : ℕ) (b : B) → (backend.cleanup i b).1.success ≡ true

-- A call is answered with a success, and its pipeline is then in a given phase.
abbrev pub Accepted :
    {B J : Type 0}
    → Backend B
    → Host B J
    → Network B J
    → PipelineHandleImpl
    → Request
    → ℕ
    → Phase
    → Type 0
Accepted backend host net p request hash f =
    let after = call backend host net p.ph request in
    ((r : RequestResult ℤ) × (after.1 ≡ answered r) × (r.success ≡ true))
    × (status_at after.0 p ≡ some (hash, f))

module _ {B J : Type 0} (backend : Backend B) (willing : IsWilling backend) (p : Provider B J)
    (name : String) (hash i : ℕ) where
  pub start_served :
      (k : ℕ)
      → (k ≡ 0) ⊎ (k < i)
      → status_of p name ≡ some (hash, idle k)
      → let (after, r) = Iterations.start backend p hash name i in
        (r.success ≡ true) × (status_of after name ≡ some (hash, running i))
  unfolding Iterations.start
  start_served k le at = grind (
    arith,
    λ (b : B). willing.start_agrees i b,
    lookup-insert_self {K = String} {V = PipelineState B},
  )

  pub stage_served :
      (args : StageArgs)
      → args.iteration ≡ i
      → status_of p name ≡ some (hash, running i)
      → let (after, r) = Iterations.stage backend p name args in
        (r.success ≡ true) × (status_of after name ≡ some (hash, running i))
  unfolding Iterations.stage
  stage_served args same at = grind (
    arith,
    λ (b : B). willing.stage_agrees args b,
    lookup-insert_self {K = String} {V = PipelineState B},
  )

  pub execute_served :
      status_of p name ≡ some (hash, running i)
      → let (after, r) = Iterations.execute backend p name i false in
        (r.success ≡ true) × (status_of after name ≡ some (hash, running i))
  unfolding Iterations.execute
  execute_served at = grind (
    arith,
    λ (b : B). willing.execute_agrees i b,
    lookup-insert_self {K = String} {V = PipelineState B},
  )

  pub cleanup_served :
      status_of p name ≡ some (hash, running i)
      → let (after, r) = Iterations.cleanup backend p name i in
        (r.success ≡ true) × (status_of after name ≡ some (hash, idle i))
  unfolding Iterations.cleanup
  cleanup_served at = grind (
    arith,
    λ (b : B). willing.cleanup_agrees i b,
    lookup-insert_self {K = String} {V = PipelineState B},
  )

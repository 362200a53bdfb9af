-- ===== src/Admin/Everywhere.antt =====
-- src/Admin.cpp: an operation on a group that comes to its end has been done on every member.
use mochi_colza.Base.{
  ℕ, ◌≡◌, ◌≢◌, ◌⊎◌, refl, ap, sym, subst, ◌∙◌, String, true, Option, none, some, List, [], ◌∷◌,
  arith, All, Bool-cases, inl, inr, nat_eq, string_eq,
}
use mochi_colza.Base.Map.{lookup, lookup-insert, lookup-insert_self}
use mochi_colza.Result.{Exception, Outcome, ok, throw, throw_std}
use mochi_colza.Backend.{Backend}
use mochi_colza.Provider.State.{Provider}
use mochi_colza.Provider.Pipelines
use mochi_colza.Provider.Pipelines.{Host, report, create_pipeline_impl}
use mochi_colza.Provider.Setup.{IsFresh, created-IsFresh, stays-IsFresh}
use mochi_colza.Provider.Requests
use mochi_colza.Provider.Phases.{idle, phase}
use mochi_colza.Client.Network.{ProviderHandle, Network, handle_eq}
use mochi_colza.Client.Connect.{Member, View}
use mochi_colza.Admin.Operations.{
  Engine, Creating, expect_success, text_of, server_of, Ended, finished, terminated, joined,
  run_threads, create_pipeline, create_distributed_pipeline,
}

module _ {B J : Type 0} (backend : Backend B) (host : Host B J) (p : Provider B J)
    (token name type config library : String) where
  reported-IsFresh :
      (r : Provider B J × Option Exception)
      → (r.1 ≡ none → IsFresh r.0 name)
      → (report r).1.success ≡ true
      → IsFresh (report r).0 name
  unfolding report
  reported-IsFresh (q, none) h e = h refl
  reported-IsFresh (q, some x) h e = absurd (ground arith)

  created_over-IsFresh :
      (Pipelines.create_pipeline backend host p token name type config library).1.success ≡ true
      → IsFresh (Pipelines.create_pipeline backend host p token name type config library).0 name
  unfolding Pipelines.create_pipeline
  created_over-IsFresh e =
      grind (arith, reported-IsFresh, created-IsFresh backend host p name type library)

  stays_over-IsFresh :
      (j : String)
      → IsFresh p j
      → IsFresh (Pipelines.create_pipeline backend host p token name type config library).0 j
  unfolding Pipelines.create_pipeline report
  stays_over-IsFresh j h = grind (arith, stays-IsFresh backend host p name j type library)

-- The provider has a pipeline of this name that has not been started.
abbrev pub HasFresh : {B J : Type 0} → Network B J → ProviderHandle → String → Type 0
HasFresh net ph name = elim (lookup ph net) [ none ↦ none | some p ↦ phase p name ] ≡ some (idle 0)

pub outcome_cases : (o : Outcome Unit) → (o ≡ ok tt) ⊎ (o ≢ ok tt)
outcome_cases (ok tt) = inl refl
outcome_cases (throw e) = inr (ground arith)
outcome_cases (throw_std what) = inr (ground arith)

module _ {N : Type 0} (others : N → N × Ended) where
  pub joined_ok : (r : N × Outcome Unit) → r.1 ≡ ok tt → joined r others ≡ others r.0
  unfolding joined
  joined_ok (net, ok x) e = refl
  joined_ok (net, throw x) e = absurd (ground arith)
  joined_ok (net, throw_std what) e = absurd (ground arith)

  pub joined_failed : (r : N × Outcome Unit) → r.1 ≢ ok tt → joined r others ≡ (r.0, terminated)
  unfolding joined
  joined_failed (net, ok tt) ne = absurd (ne refl)
  joined_failed (net, throw x) ne = refl
  joined_failed (net, throw_std what) ne = refl

module _ {B J : Type 0} (backend : Backend B) (host : Host B J) (engine : Engine) (provider_id : ℕ)
    (c : Creating) where
  abbrev pub thread : Network B J → Member → Network B J × Outcome Unit
  thread net member = create_pipeline backend host engine net (text_of engine member) provider_id c

  thread-HasFresh :
      (net : Network B J) (member : Member)
      → (thread net member).1 ≡ ok tt
      → HasFresh (thread net member).0 (server_of engine provider_id member) c.name
  unfolding create_pipeline expect_success Requests.serve
  thread-HasFresh net member e = grind (
    arith,
    lookup-insert_self {K = ProviderHandle} {V = Provider B J},
    λ (p : Provider B J).
        created_over-IsFresh backend host p c.token c.name c.type c.config c.library,
  )

  thread_stays-HasFresh :
      (net : Network B J) (member : Member) (ph : ProviderHandle)
      → HasFresh net ph c.name
      → HasFresh (thread net member).0 ph c.name
  unfolding create_pipeline expect_success Requests.serve
  thread_stays-HasFresh net member ph h = grind (
    arith,
    handle_eq.same_iff (server_of engine provider_id member) ph,
    lookup-insert {K = ProviderHandle} {V = Provider B J},
    λ (p : Provider B J).
        stays_over-IsFresh backend host p c.token c.name c.type c.config c.library c.name,
  )

  threads_stay-HasFresh :
      (members : List Member) (net : Network B J) (ph : ProviderHandle)
      → HasFresh net ph c.name
      → HasFresh (run_threads thread net members).0 ph c.name
  unfolding run_threads
  threads_stay-HasFresh [] net ph h = h
  threads_stay-HasFresh (member ∷ members) net ph h =
      let first = thread_stays-HasFresh net member ph h in
      let others = threads_stay-HasFresh members (thread net member).0 ph first in
      elim (outcome_cases (thread net member).1) [
        | inl done ↦
            subst (λ (r : Network B J × Ended). HasFresh r.0 ph c.name)
              (sym (joined_ok (λ net. run_threads thread net members) (thread net member) done))
              others
        | inr fails ↦
            subst (λ (r : Network B J × Ended). HasFresh r.0 ph c.name)
              (sym
                (joined_failed (λ net. run_threads thread net members) (thread net member) fails))
              first
      ]

  threads-HasFresh :
      (members : List Member) (net : Network B J)
      → (run_threads thread net members).1 ≡ finished
      → All
          (λ m. HasFresh (run_threads thread net members).0 (server_of engine provider_id m) c.name)
          members
  unfolding run_threads
  threads-HasFresh [] net e = tt
  threads-HasFresh (member ∷ members) net e = elim (outcome_cases (thread net member).1) [
    | inr fails ↦ absurd (
        ground (
          arith,
          ap (λ r. r.1)
              (joined_failed (λ net. run_threads thread net members) (thread net member) fails),
          e,
        ))
    | inl done ↦
        let same = joined_ok (λ net. run_threads thread net members) (thread net member) done in
        let net' = (thread net member).0 in
        subst
          (λ (r : Network B J × Ended).
            All (λ m. HasFresh r.0 (server_of engine provider_id m) c.name) (member ∷ members))
          (sym same)
          (
            threads_stay-HasFresh members net' (server_of engine provider_id member)
                (thread-HasFresh net member done),
            threads-HasFresh members net' (ap (λ r. r.1) (sym same) ∙ e),
          )
  ]

  -- If createDistributedPipeline comes to its end, with no exception and no thread that ends the
  -- process, every member of the group has a pipeline of the name that has not been started.
  pub create_distributed_pipeline-HasFresh :
      (net : Network B J) (view : View) (ssg_file : String)
      → let (after, ended) =
          create_distributed_pipeline backend host engine net view ssg_file provider_id c in
        ended ≡ finished
        → All (λ m. HasFresh after (server_of engine provider_id m) c.name) view.members
  unfolding create_distributed_pipeline
  create_distributed_pipeline-HasFresh net view ssg_file e = elim (Bool-cases view.loads) [
    | inr no_file ↦ absurd (ground arith)
    | inl file ↦ elim (Bool-cases view.observes) [
      | inr blind ↦ absurd (ground arith)
      | inl observed ↦ elim (Bool-cases view.has_size) [
        | inr no_size ↦ absurd (ground arith)
        | inl sized ↦ rw (file, observed, sized) (threads-HasFresh view.members net (ground arith))
      ]
    ]
  ]

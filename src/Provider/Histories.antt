-- ===== src/Provider/Histories.antt =====
-- src/ProviderImpl.hpp: the invariant over histories of requests, and when `leave` goes on.
use mochi_colza.Base.{
  ℕ, ◌^◌, ◌≤◌, ◌<◌, ◌≡◌, ◌≢◌, ◌↔◌, true, false, none, some, List, [], ◌∷◌, arith, String, nat_eq,
  string_eq, length,
}
use mochi_colza.Base.Map.{weight_at-le-total, total-le-length, total-eq-zero}
use mochi_colza.Backend.{Backend}
use mochi_colza.Provider.State.{PipelineState, Provider}
use mochi_colza.Provider.Pipelines.{Host, check_pipeline}
use mochi_colza.Provider.Iterations.{leave}
use mochi_colza.Provider.Invariant.{
  weight, active_count, is_active, Inv, Counts, start-Counts, stage-Counts, execute-Counts,
  cleanup-Counts, abort-Counts, destroy_pipeline-Counts, create_pipeline-Counts,
}
use mochi_colza.Provider.Requests.{
  Request, create, destroy, check, start, stage, execute, cleanup, abort, serve, run, IsCareful,
  AreCareful,
}

module _ {B J : Type 0} (backend : Backend B) (host : Host B J) where
  check_pipeline-Counts :
      {k : ℕ} (p : Provider B J) (name : String) → Counts k p → Counts k (check_pipeline p name).0
  unfolding check_pipeline
  check_pipeline-Counts p name v = ground arith

  pub serve-Counts :
      {k : ℕ} (p : Provider B J) (r : Request)
      → Counts k p
      → IsCareful backend host p r
      → Counts k (serve backend host p r).0
  unfolding serve
  serve-Counts p (create token name type config library) v h =
      create_pipeline-Counts backend host p token name type config library v h
  serve-Counts p (destroy token name) v h = destroy_pipeline-Counts backend p token name v
  serve-Counts p (check name) v h = check_pipeline-Counts p name v
  serve-Counts p (start hash name iteration) v h = start-Counts backend p hash name iteration v
  serve-Counts p (stage name args) v h = stage-Counts backend p name args v
  serve-Counts p (execute name iteration auto_cleanup) v h =
      execute-Counts backend p name iteration auto_cleanup v
  serve-Counts p (cleanup name iteration) v h = cleanup-Counts backend p name iteration v
  serve-Counts p (abort name iteration) v h = abort-Counts backend p name iteration v

  pub run-Counts :
      {k : ℕ} (p : Provider B J) (rs : List Request)
      → Counts k p
      → AreCareful backend host p rs
      → Counts k (run backend host p rs)
  unfolding run
  run-Counts p [] v h = v
  run-Counts p (r ∷ rs) v h = run-Counts (serve backend host p r).0 rs (serve-Counts p r v h.0) h.1

  -- After any history of requests, none of which, even a refused one, asks to create a pipeline over
  -- an active one, from a state where the invariant holds, the names
  -- are distinct and the counter is the number of active pipelines, whatever the requests ask for
  -- and whatever the backends answer.
  pub run-Inv :
      (p : Provider B J) (rs : List Request)
      → Inv p
      → AreCareful backend host p rs
      → Inv (run backend host p rs)
  run-Inv = run-Counts

pub weight_le : {B : Type 0} (s : PipelineState B) → weight s ≤ 1
weight_le s = ground arith

module _ {B J : Type 0} where
  -- No pipeline is active.
  abbrev pub IsQuiet : Provider B J → Type 0
  IsQuiet p = (name : String) → is_active p name ≡ false

  IsQuiet-of_count : (p : Provider B J) → active_count p ≡ 0 → IsQuiet p
  IsQuiet-of_count p h name =
      ground (arith, weight_at-le-total {K = String} weight name p.pipelines)

  count_of_quiet : (p : Provider B J) → Inv p → IsQuiet p → active_count p ≡ 0
  count_of_quiet p v h =
      total-eq-zero weight p.pipelines v.distinct (λ name s e. ground (arith, h name))

  counter_iff :
      (p : Provider B J)
      → Inv p
      → length p.pipelines < 2 ^ 64
      → IsQuiet p ↔ (p.num_active_pipelines ≡ 0)
  counter_iff p v few =
      let bound = total-le-length weight weight_le p.pipelines in
      (
        λ quiet. omega (arith, count_of_quiet p v quiet),
        λ e. IsQuiet-of_count p (omega (arith, bound)),
      )

  abbrev gone : Provider B J → Provider B J
  gone p = record p { left = true; finalized = true; pipelines = [] }

  leave_zero : (p : Provider B J) → p.num_active_pipelines ≡ 0 → leave p ≡ some (gone p)
  unfolding leave
  leave_zero p e = ground arith

  leave_nonzero : (p : Provider B J) → p.num_active_pipelines ≢ 0 → leave p ≡ none
  unfolding leave
  leave_nonzero p e = ground arith

  zero_of_leave : (p : Provider B J) → leave p ≡ some (gone p) → p.num_active_pipelines ≡ 0
  unfolding leave
  zero_of_leave p e = ground arith

  nonzero_of_leave : (p : Provider B J) → leave p ≡ none → p.num_active_pipelines ≢ 0
  unfolding leave
  nonzero_of_leave p e = ground arith

  -- A handler of `leave` that finds fewer than 2 ^ 64 pipelines, and the counter right, goes on
  -- exactly when no pipeline is active. It then leaves the group, finalizes the engine and drops
  -- every pipeline; otherwise it waits.
  pub leave_iff :
      (p : Provider B J)
      → Inv p
      → length p.pipelines < 2 ^ 64
      → (IsQuiet p ↔ (leave p ≡ some (record p { left = true; finalized = true; pipelines = [] })))
        × ((¬ IsQuiet p) ↔ (leave p ≡ none))
  leave_iff p v few =
      let counter = counter_iff p v few in
      (
        (λ quiet. leave_zero p (counter.0 quiet), λ e. counter.1 (zero_of_leave p e)),
        (
          λ busy. leave_nonzero p (λ e. busy (counter.1 e)),
          λ e quiet. nonzero_of_leave p e (counter.0 quiet),
        ),
      )

-- ===== src/Provider/Overlap.antt =====
-- src/ProviderImpl.hpp: two `start` handlers that overlap. A handler gives up the lock, and its
-- thread, while the backend starts: between its guards and its last writes other handlers run.
use mochi_colza.Base.{
  ℕ, ◌≡◌, Bool, true, false, not, ◌&&◌, none, some, arith, String, ◌==◌, leb, nat_eq, string_eq,
}
use mochi_colza.Base.Map.{lookup}
use mochi_colza.Backend.{Backend}
use mochi_colza.Provider.State.{Provider, increment}
use mochi_colza.Provider.Iterations.{started, start}

module _ {B J : Type 0} (backend : Backend B) where
  -- The guards of `start`, on which its first half depends.
  abbrev pub passes : Provider B J → ℕ → String → ℕ → Bool
  passes p group_hash pipeline_name iteration =
      (group_hash == p.group_hash) && elim (lookup pipeline_name p.pipelines) [
        | none ↦ false
        | some state ↦
            not state.active && not (not (state.iteration == 0) && leb iteration state.iteration)
      ]

  -- The first half of `start`, up to the call of the backend.
  unfoldable pub begin_start : Provider B J → Provider B J
  begin_start p = record p { num_active_pipelines = increment p.num_active_pipelines }

  -- The second half: the call, and what follows it.
  unfoldable pub finish_start : Provider B J → String → ℕ → Provider B J
  unfolding started
  finish_start p pipeline_name iteration = elim (lookup pipeline_name p.pipelines) [
    | none ↦ p
    | some state ↦
        (started backend p pipeline_name state iteration (backend.start iteration state.pipeline)).0
  ]

  -- A handler that runs alone is its two halves.
  pub start_halves :
      (p : Provider B J) (group_hash : ℕ) (name : String) (iteration : ℕ)
      → passes p group_hash name iteration ≡ true
      → (start backend p group_hash name iteration).0 ≡ finish_start (begin_start p) name iteration
  unfolding start begin_start finish_start
  start_halves p group_hash name iteration h = grind arith

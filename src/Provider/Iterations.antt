-- ===== src/Provider/Iterations.antt =====
-- src/ProviderImpl.hpp: the handlers `start`, `stage`, `execute`, `cleanup` and `abort`, which
-- move a pipeline through an iteration, and `leave`.
use mochi_colza.Base.{
  string_eq, nat_eq, ℕ, String, Bool, true, false, not, ◌&&◌, [], Option, none, some, ℤ, ◌==◌, leb,
  if◌then◌else◌,
}
use mochi_colza.Base.Map.{insert}
use mochi_colza.Result.{
  RequestResult, refuse, fresh, invalid_group_hash, pipeline_is_active, pipeline_not_active,
  invalid_iteration,
}
use mochi_colza.Backend.{Backend, StageArgs}
use mochi_colza.Provider.State.{
  PipelineState, Provider, Response, increment, decrement, set_state, find_pipeline,
}

module _ {B J : Type 0} (backend : Backend B) where
  -- The two tests that come first in `stage`, `execute`, `cleanup` and `abort`.
  abbrev pub during : Provider B J → PipelineState B → ℕ → Response B J → Response B J
  during p state iteration rest =
      if not state.active
      then (p, refuse pipeline_not_active "Pipeline is not active")
      else if not (state.iteration == iteration)
      then (p, refuse invalid_iteration "Invalid iteration")
      else rest

  -- What `start` does with the answer of the backend, the counter being incremented.
  unfoldable pub started :
      Provider B J → String → PipelineState B → ℕ → B × RequestResult ℤ → Response B J
  started p name state iteration (b, result) =
      if result.success
      then (
        set_state p name (record { pipeline = b; active = true; iteration = iteration }),
        result,
      )
      else (
        record p {
          pipelines = insert name (record state { pipeline = b }) p.pipelines;
          num_active_pipelines = decrement p.num_active_pipelines;
        },
        result,
      )

  unfoldable pub start : Provider B J → ℕ → String → ℕ → Response B J
  unfolding started
  start p group_hash pipeline_name iteration =
      if not (group_hash == p.group_hash)
      then (p, refuse invalid_group_hash "Inconsistent group view")
      else find_pipeline p pipeline_name λ state.
        if state.active
        then (p, refuse pipeline_is_active "Pipeline is already active")
        else if not (state.iteration == 0) && leb iteration state.iteration
        then (
          p,
          refuse invalid_iteration "Pipeline cannot be started at an inferior iteration number",
        )
        else started (record p { num_active_pipelines = increment p.num_active_pipelines })
            pipeline_name state iteration (backend.start iteration state.pipeline)

  unfoldable pub stage : Provider B J → String → StageArgs → Response B J
  stage p pipeline_name args = find_pipeline p pipeline_name λ state.
      during p state args.iteration (
        let (b, result) = backend.stage args state.pipeline in
        (set_state p pipeline_name (record state { pipeline = b }), result))

  -- `state->active = false; m_num_active_pipelines -= 1;`
  abbrev pub deactivate : Provider B J → String → PipelineState B → Provider B J
  deactivate p name state = record p {
    pipelines = insert name (record state { active = false }) p.pipelines;
    num_active_pipelines = decrement p.num_active_pipelines;
  }

  -- What `cleanup`, and `execute` before it returns, do with the backend's answer to `cleanup`.
  unfoldable pub cleaned :
      Provider B J → String → PipelineState B → B × RequestResult ℤ → Response B J
  cleaned p name state (b, result) =
      if result.success
      then (deactivate p name (record state { pipeline = b }), result)
      else (set_state p name (record state { pipeline = b }), result)

  unfoldable pub executed :
      Provider B J → String → PipelineState B → ℕ → Bool → B × RequestResult ℤ → Response B J
  unfolding cleaned
  executed p name state iteration auto_cleanup (b, result) =
      if result.success && auto_cleanup
      then cleaned p name (record state { pipeline = b }) (backend.cleanup iteration b)
      else (set_state p name (record state { pipeline = b }), result)

  unfoldable pub execute : Provider B J → String → ℕ → Bool → Response B J
  unfolding executed
  execute p pipeline_name iteration auto_cleanup = find_pipeline p pipeline_name λ state.
      during p state iteration (
        executed p pipeline_name state iteration auto_cleanup
          (backend.execute iteration state.pipeline))

  unfoldable pub cleanup : Provider B J → String → ℕ → Response B J
  unfolding cleaned
  cleanup p pipeline_name iteration = find_pipeline p pipeline_name λ state.
      during p state iteration
        (cleaned p pipeline_name state (backend.cleanup iteration state.pipeline))

  unfoldable pub abort : Provider B J → String → ℕ → Response B J
  unfolding fresh
  abort p pipeline_name iteration = find_pipeline p pipeline_name λ state.
      during p state iteration (
        record p {
          pipelines =
              insert pipeline_name
                (record {
                  pipeline = backend.abort iteration state.pipeline;
                  active = false;
                  iteration = decrement state.iteration;
                })
                p.pipelines;
          num_active_pipelines = decrement p.num_active_pipelines;
        },
        fresh,
      )

-- `none` is a handler that still waits on the condition variable.
unfoldable pub leave : {B J : Type 0} → Provider B J → Option (Provider B J)
leave p =
    if p.num_active_pipelines == 0
    then some (record p { left = true; finalized = true; pipelines = [] })
    else none

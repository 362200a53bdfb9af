-- ===== src/Provider/Requests.antt =====
-- src/ProviderImpl.hpp: the requests that a provider serves, as data, and the histories of
-- handlers that run one after another.
use mochi_colza.Base.{ℕ, String, Bool, false, List, [], ◌∷◌, ◌≡◌}
use mochi_colza.Backend.{Backend, StageArgs}
use mochi_colza.Provider.State.{Provider, Response}
use mochi_colza.Provider.Pipelines.{Host, create_pipeline, destroy_pipeline, check_pipeline}
use mochi_colza.Provider.Iterations
use mochi_colza.Provider.Invariant.{is_active}

-- The RPCs that have a response of type `RequestResult<int32_t>`, with their arguments.
pub data Request : Type 0 where
  create : String → String → String → String → String → Request
  destroy : String → String → Request
  check : String → Request
  start : ℕ → String → ℕ → Request
  stage : String → StageArgs → Request
  execute : String → ℕ → Bool → Request
  cleanup : String → ℕ → Request
  abort : String → ℕ → Request

-- The pipeline that a request names.
abbrev pub target : Request → String
target (create token name type config library) = name
target (destroy token name) = name
target (check name) = name
target (start hash name iteration) = name
target (stage name args) = name
target (execute name iteration auto_cleanup) = name
target (cleanup name iteration) = name
target (abort name iteration) = name

module _ {B J : Type 0} (backend : Backend B) (host : Host B J) where
  -- The dispatch that the constructor sets up with `define`.
  unfoldable pub serve : Provider B J → Request → Response B J
  serve p (create token name type config library) =
      create_pipeline backend host p token name type config library
  serve p (destroy token name) = destroy_pipeline backend p token name
  serve p (check name) = check_pipeline p name
  serve p (start hash name iteration) = Iterations.start backend p hash name iteration
  serve p (stage name args) = Iterations.stage backend p name args
  serve p (execute name iteration auto_cleanup) =
      Iterations.execute backend p name iteration auto_cleanup
  serve p (cleanup name iteration) = Iterations.cleanup backend p name iteration
  serve p (abort name iteration) = Iterations.abort backend p name iteration

  unfoldable pub run : Provider B J → List Request → Provider B J
  unfolding serve
  run p [] = p
  run p (r ∷ rs) = run (serve p r).0 rs

  -- `createPipeline` does not ask whether the name is in use. A request to create a pipeline is
  -- careful if no pipeline of that name is active.
  abbrev pub IsCareful : Provider B J → Request → Type 0
  IsCareful p (create token name type config library) = is_active p name ≡ false
  IsCareful p _ = Unit

  abbrev pub AreCareful : Provider B J → List Request → Type 0
  AreCareful p [] = Unit
  AreCareful p (r ∷ rs) = IsCareful p r × AreCareful (serve p r).0 rs

-- ===== src/Client/Collective.antt =====
-- src/DistributedPipelineHandle.cpp: staging to one of the servers, and executing and cleaning up on
-- all of them.
use mochi_colza.Base.{
  ℕ, ◌%◌, String, Bool, false, not, Option, none, some, List, [], ◌∷◌, map, ℤ, length, get_elem?,
  if◌then◌else◌, ◌==◌, nat_eq,
}
use mochi_colza.Result.{
  RequestResult, fresh, Outcome, ok, throw, throw_std, exception, invalid_instance,
  empty_dist_pipeline,
}
use mochi_colza.Backend.{Backend, StageArgs, Bulk}
use mochi_colza.Async.Object.{
  AsyncResponse, Waited, returned, silent, raised, raised_std, undefined, Callback,
  AsyncRequestImpl,
}
use mochi_colza.Provider.Pipelines.{Host}
use mochi_colza.Provider.Requests
use mochi_colza.Provider.Requests.{Request}
use mochi_colza.Client.Network.{Network}
use mochi_colza.Client.PipelineHandle
use mochi_colza.Client.PipelineHandle.{PipelineHandleImpl, read_response}
use mochi_colza.Client.Connect.{DistributedImpl}
use mochi_colza.Client.Distributed.{goes_on, send_all}

-- `none` is a handle without an object.
abbrev pub DistributedHandle : Type 0
DistributedHandle = Option DistributedImpl

abbrev pub invalid : {A : Type 0} → Outcome A
invalid = throw (exception invalid_instance "Invalid colza::DistributedPipelineHandle object")

abbrev pub with_handle :
    {N A : Type 0} → N → DistributedHandle → (DistributedImpl → N × Outcome A) → N × Outcome A
with_handle net handle rest = elim handle [ none ↦ (net, invalid) | some self ↦ rest self ]

-- getHashFunction and setHashFunction
unfoldable pub get_hash_function : DistributedHandle → Outcome (String → ℕ → ℕ → ℕ)
get_hash_function none = invalid
get_hash_function (some self) = ok self.hash

unfoldable pub set_hash_function :
    DistributedHandle → (String → ℕ → ℕ → ℕ) → Outcome DistributedImpl
set_hash_function none hash = invalid
set_hash_function (some self) hash = ok (record self { hash = hash })

-- h % m_pipelines.size()
abbrev pub chosen : DistributedImpl → StageArgs → ℕ
chosen self args = self.hash args.dataset_name args.iteration args.block_id % length self.pipelines

-- The test for an empty handle, and the pipeline of the block. `get_elem?` gives `none` where
-- m_pipelines[i] would be out of bounds.
abbrev pub with_pipeline :
    {N A : Type 0}
    → N
    → DistributedHandle
    → StageArgs
    → (PipelineHandle.PipelineHandle → N × Outcome A)
    → N × Outcome A
with_pipeline net handle args rest = with_handle net handle λ self.
    if length self.pipelines == 0
    then (
      net,
      throw (
          exception empty_dist_pipeline
            "No concrete pipeline attached to colza::DistributedPipelineHandle object"),
    )
    else rest (get_elem? self.pipelines (chosen self args))

-- The callback's loop over the responses.
unfoldable pub response_loop : RequestResult ℤ → List AsyncResponse → Outcome (RequestResult ℤ)
response_loop response [] = ok response
response_loop response (r ∷ rs) =
    let local_response = r.arriving in
    let next = if not local_response.success then local_response else response in
    let rest = response_loop next rs in elim r.lost [ none ↦ rest | some what ↦ throw_std what ]

-- The rest of the callback. An exception out of the loop leaves the vector as it is.
abbrev pub after_loop : List AsyncResponse → Outcome (RequestResult ℤ) → List AsyncResponse × Waited
after_loop rs (ok response) = ([], read_response response)
after_loop rs (throw e) = (rs, raised e)
after_loop rs (throw_std what) = (rs, raised_std what)

-- The callback of execute and cleanup.
unfoldable pub all_callback : Callback
unfolding response_loop read_response
all_callback rs = after_loop rs (response_loop fresh rs)

-- The object behind the request of all responses, none of which has been received when it is made.
abbrev pub request_of : List (PipelineHandleImpl × RequestResult ℤ) → AsyncRequestImpl
request_of responses = record {
  async_responses =
      map (λ (p, response). record { received = false; lost = none; arriving = response })
        responses;
  waited = false;
  wait_callback = all_callback;
}

-- A wait at once, for a request that no one else holds and none of whose responses is lost.
unfoldable pub wait_at_once : Waited → Outcome (Option ℤ)
wait_at_once (returned v) = ok v
wait_at_once silent = ok none
wait_at_once (raised e) = throw e
wait_at_once (raised_std what) = throw_std what
wait_at_once undefined = throw_std "undefined"

module _ {B J : Type 0} (backend : Backend B) (host : Host B J) where
  -- DistributedPipelineHandle::stage of an exposed memory, and of data in the client's own
  unfoldable pub stage :
      Network B J → DistributedHandle → StageArgs → Network B J × Outcome (Option ℤ)
  unfolding PipelineHandle.stage
  stage net handle args =
      with_pipeline net handle args λ pipeline. PipelineHandle.stage backend host net pipeline args

  unfoldable pub stage_data :
      (ℕ → ℕ → Bulk)
      → Network B J
      → DistributedHandle
      → StageArgs
      → ℕ
      → Network B J × Outcome (Option ℤ)
  unfolding PipelineHandle.stage_data
  stage_data expose net handle args memory =
      with_pipeline net handle args
        λ pipeline. PipelineHandle.stage_data backend host expose net pipeline args memory

  -- What execute and cleanup share: only rank 0 makes a request, and none if there is no pipeline.
  -- `none` is a call that returns without a request.
  unfoldable pub request_all :
      ℕ
      → Network B J
      → DistributedHandle
      → (String → Request)
      → Network B J × Outcome (Option AsyncRequestImpl)
  unfolding goes_on send_all
  request_all rank net handle request = with_handle net handle λ self.
      if length self.pipelines == 0
      then (net, ok none)
      else if not (rank == 0)
      then (net, ok none)
      else goes_on (send_all backend host net request self.pipelines)
          λ net responses. (net, ok (some (request_of responses)))

  -- DistributedPipelineHandle::execute, up to the assignment to `*req`, and without an AsyncRequest
  unfoldable pub execute_request :
      ℕ
      → Network B J
      → DistributedHandle
      → ℕ
      → Bool
      → Network B J × Outcome (Option AsyncRequestImpl)
  unfolding request_all
  execute_request rank net handle iteration auto_cleanup =
      request_all rank net handle (λ name. Requests.execute name iteration auto_cleanup)

  -- `ok none` also where nothing is written to `*result`.
  unfoldable pub waited_for :
      Network B J × Outcome (Option AsyncRequestImpl) → Network B J × Outcome (Option ℤ)
  unfolding goes_on wait_at_once
  waited_for r = goes_on r λ net request. elim request [
    | none ↦ (net, ok none)
    | some impl ↦ (net, wait_at_once (impl.wait_callback impl.async_responses).1)
  ]

  unfoldable pub execute :
      ℕ → Network B J → DistributedHandle → ℕ → Bool → Network B J × Outcome (Option ℤ)
  unfolding waited_for execute_request
  execute rank net handle iteration auto_cleanup =
      waited_for (execute_request rank net handle iteration auto_cleanup)

  -- DistributedPipelineHandle::cleanup, up to the assignment to `*req`, and without an AsyncRequest
  unfoldable pub cleanup_request :
      ℕ → Network B J → DistributedHandle → ℕ → Network B J × Outcome (Option AsyncRequestImpl)
  unfolding request_all
  cleanup_request rank net handle iteration =
      request_all rank net handle (λ name. Requests.cleanup name iteration)

  unfoldable pub cleanup :
      ℕ → Network B J → DistributedHandle → ℕ → Network B J × Outcome (Option ℤ)
  unfolding waited_for cleanup_request
  cleanup rank net handle iteration = waited_for (cleanup_request rank net handle iteration)

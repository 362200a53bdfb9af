-- ===== src/Client/Asynchronous.antt =====
-- src/PipelineHandle.cpp and src/DistributedPipelineHandle.cpp: the calls that keep an AsyncRequest,
-- with the assignment to `*req`.
use mochi_colza.Base.{ℕ, Bool, Option, none, some, nat_eq}
use mochi_colza.Result.{Outcome, ok, throw, throw_std}
use mochi_colza.Backend.{Backend, Bulk, StageArgs}
use mochi_colza.Async.Object.{
  Waited, returned, silent, raised, raised_std, undefined, AsyncRequestImpl,
}
use mochi_colza.Async.Handles.{Requests, make, move_assign, destroy}
use mochi_colza.Provider.Pipelines.{Host}
use mochi_colza.Client.Network.{Network}
use mochi_colza.Client.PipelineHandle.{
  PipelineHandle, stage_request, stage_data_request, execute_request, cleanup_request,
}
use mochi_colza.Client.Collective
use mochi_colza.Client.Collective.{DistributedHandle}

-- What an assignment lets out. `none` is undefined behaviour.
abbrev pub let_out : Waited → Requests → Option (Requests × Outcome Unit)
let_out (returned v) s = some (s, ok tt)
let_out silent s = some (s, ok tt)
let_out (raised e) s = some (s, throw e)
let_out (raised_std what) s = some (s, throw_std what)
let_out undefined s = none

-- After the assignment, and the destruction of the temporary.
abbrev pub after_store : Waited → Option Requests → Option (Requests × Outcome Unit)
after_store w none = none
after_store w (some s) = let_out w s

-- `*req = AsyncRequest(std::move(impl))`, req being the variable x, for a new temporary y and a new
-- object o. The temporary is destroyed also where the assignment raises an exception. `none` is a
-- process that std::terminate ends, or undefined behaviour.
unfoldable pub store_request :
    Requests → ℕ → ℕ → ℕ → AsyncRequestImpl → Option (Requests × Outcome Unit)
unfolding make move_assign destroy
store_request s x y o impl =
    let (t, w) = move_assign (make s y o impl.async_responses impl.wait_callback) x y in
    after_store w (destroy t y)

-- The end of an asynchronous call. An exception before leaves `*req` as it is.
unfoldable pub keep_request :
    {N : Type 0}
    → Requests
    → ℕ
    → ℕ
    → ℕ
    → N × Outcome AsyncRequestImpl
    → N × Option (Requests × Outcome Unit)
unfolding store_request
keep_request s x y o (net, ok impl) = (net, store_request s x y o impl)
keep_request s x y o (net, throw e) = (net, some (s, throw e))
keep_request s x y o (net, throw_std what) = (net, some (s, throw_std what))

-- The same for a call on all servers, which may return without a request.
unfoldable pub keep_any :
    {N : Type 0}
    → Requests
    → ℕ
    → ℕ
    → ℕ
    → N × Outcome (Option AsyncRequestImpl)
    → N × Option (Requests × Outcome Unit)
unfolding store_request
keep_any s x y o (net, ok none) = (net, some (s, ok tt))
keep_any s x y o (net, ok (some impl)) = (net, store_request s x y o impl)
keep_any s x y o (net, throw e) = (net, some (s, throw e))
keep_any s x y o (net, throw_std what) = (net, some (s, throw_std what))

module _ {B J : Type 0} (backend : Backend B) (host : Host B J) (net : Network B J) (s : Requests)
    (x y o : ℕ) where
  -- PipelineHandle::stage of an exposed memory and of data in the client's own, PipelineHandle::execute
  -- and PipelineHandle::cleanup
  unfoldable pub stage_async :
      Bool → PipelineHandle → StageArgs → Network B J × Option (Requests × Outcome Unit)
  unfolding keep_request stage_request
  stage_async received handle args =
      keep_request s x y o (stage_request backend host received net handle args)

  unfoldable pub stage_data_async :
      (ℕ → ℕ → Bulk)
      → Bool
      → PipelineHandle
      → StageArgs
      → ℕ
      → Network B J × Option (Requests × Outcome Unit)
  unfolding keep_request stage_data_request
  stage_data_async expose received handle args memory =
      keep_request s x y o (stage_data_request backend host expose received net handle args memory)

  unfoldable pub execute_async :
      Bool → PipelineHandle → ℕ → Bool → Network B J × Option (Requests × Outcome Unit)
  unfolding keep_request execute_request
  execute_async received handle iteration auto_cleanup =
      keep_request s x y o (execute_request backend host received net handle iteration auto_cleanup)

  unfoldable pub cleanup_async :
      Bool → PipelineHandle → ℕ → Network B J × Option (Requests × Outcome Unit)
  unfolding keep_request cleanup_request
  cleanup_async received handle iteration =
      keep_request s x y o (cleanup_request backend host received net handle iteration)

  -- DistributedPipelineHandle::execute and DistributedPipelineHandle::cleanup
  unfoldable pub execute_all_async :
      ℕ → DistributedHandle → ℕ → Bool → Network B J × Option (Requests × Outcome Unit)
  unfolding keep_any Collective.execute_request
  execute_all_async rank handle iteration auto_cleanup =
      keep_any s x y o
        (Collective.execute_request backend host rank net handle iteration auto_cleanup)

  unfoldable pub cleanup_all_async :
      ℕ → DistributedHandle → ℕ → Network B J × Option (Requests × Outcome Unit)
  unfolding keep_any Collective.cleanup_request
  cleanup_all_async rank handle iteration =
      keep_any s x y o (Collective.cleanup_request backend host rank net handle iteration)

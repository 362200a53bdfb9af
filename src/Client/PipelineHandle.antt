-- ===== src/Client/PipelineHandle.antt =====
-- src/PipelineHandle.cpp and src/PipelineHandleImpl.hpp: a client's handle to one pipeline.
-- The value of a call is what it writes to `*result`.
use mochi_colza.Base.{
  ℕ, String, Bool, false, Option, none, some, [], ◌∷◌, ℤ, ◌==◌, string_eq, if◌then◌else◌,
}
use mochi_colza.Result.{
  RequestResult, Outcome, ok, throw, throw_std, exception, invalid_instance, check_response,
}
use mochi_colza.Types.{compute_data_size}
use mochi_colza.Backend.{Backend, Bulk, StageArgs}
use mochi_colza.Async.Object.{
  Waited, returned, raised, raised_std, undefined, Callback, AsyncRequestImpl,
}
use mochi_colza.Provider.Pipelines.{Host}
use mochi_colza.Provider.Requests
use mochi_colza.Client.Network.{ProviderHandle, Reply, answered, failed, Network, call}

-- `self_addr` is the address of the client's engine, `m_client->m_engine.self()`.
pub record PipelineHandleImpl : Type 0 where
  pub name : String
  pub self_addr : String
  pub ph : ProviderHandle

-- `none` is a handle without an object.
abbrev pub PipelineHandle : Type 0
PipelineHandle = Option PipelineHandleImpl

-- The callback of an asynchronous call: it reads element 0 and clears the vector, unless the
-- wait for the response throws.
unfoldable pub read_response : RequestResult ℤ → Waited
read_response response =
    if response.success
    then returned response.value
    else raised (record { code = response.value; what = response.error })

unfoldable pub pipeline_callback : Callback
unfolding read_response
pipeline_callback [] = ([], undefined)
pipeline_callback (r ∷ rs) = elim r.lost [
  | none ↦ ([], read_response r.arriving)
  | some what ↦ (r ∷ rs, raised_std what)
]

module _ {N : Type 0} where
  -- A synchronous call, and how its response is read.
  unfoldable pub synchronous : N × Reply → N × Outcome (Option ℤ)
  unfolding check_response
  synchronous (net, answered response) = (net, check_response response)
  synchronous (net, failed what) = (net, throw_std what)

  -- A call whose value is not read.
  unfoldable pub without_value : N × Outcome (Option ℤ) → N × Outcome Unit
  without_value (net, ok v) = (net, ok tt)
  without_value (net, throw e) = (net, throw e)
  without_value (net, throw_std what) = (net, throw_std what)

  -- An asynchronous call up to the assignment to `*req`: the object behind the request. `received` says whether the response is
  -- there when someone asks.
  unfoldable pub asynchronous : Bool → N × Reply → N × Outcome AsyncRequestImpl
  asynchronous received (net, answered response) = (
    net,
    ok (record {
      async_responses = record { received = received; lost = none; arriving = response } ∷ [];
      waited = false;
      wait_callback = pipeline_callback;
    }),
  )
  asynchronous received (net, failed what) = (net, throw_std what)

-- `if(not self) throw`, with the rest of the function.
abbrev pub with_self :
    {N A : Type 0} → N → PipelineHandle → (PipelineHandleImpl → N × Outcome A) → N × Outcome A
with_self net handle rest = elim handle [
  | none ↦ (net, throw (exception invalid_instance "Invalid colza::PipelineHandle object"))
  | some self ↦ rest self
]

abbrev pub sender : PipelineHandleImpl → String → String
sender self origin_addr = if origin_addr == "" then self.self_addr else origin_addr

-- The arguments with which data in the client's own memory are staged. `expose` is the engine's.
abbrev pub exposed : (ℕ → ℕ → Bulk) → PipelineHandleImpl → StageArgs → ℕ → StageArgs
exposed expose self args memory = record args {
  sender_addr = self.self_addr;
  bulk = expose memory (compute_data_size args.dimensions args.type);
}

module _ {B J : Type 0} (backend : Backend B) (host : Host B J) where
  -- PipelineHandle::start
  unfoldable pub start : Network B J → PipelineHandle → ℕ → Network B J × Outcome Unit
  unfolding synchronous without_value call
  start net handle iteration = with_self net handle λ self.
      without_value
        (synchronous (call backend host net self.ph (Requests.start 0 self.name iteration)))

  -- PipelineHandle::stage of a memory that the caller has exposed. `args` has the arguments of the
  -- call, the sender being the origin that the caller gives.
  unfoldable pub stage : Network B J → PipelineHandle → StageArgs → Network B J × Outcome (Option ℤ)
  unfolding synchronous call
  stage net handle args = with_self net handle λ self. synchronous (
      call backend host net self.ph
        (Requests.stage self.name (record args { sender_addr = sender self args.sender_addr })))

  -- The functions named `request` are the calls with an AsyncRequest, up to the assignment to it.
  unfoldable pub stage_request :
      Bool → Network B J → PipelineHandle → StageArgs → Network B J × Outcome AsyncRequestImpl
  unfolding asynchronous call
  stage_request received net handle args = with_self net handle λ self. asynchronous received (
      call backend host net self.ph
        (Requests.stage self.name (record args { sender_addr = sender self args.sender_addr })))

  -- PipelineHandle::stage of data in the client's own memory
  unfoldable pub stage_data :
      (ℕ → ℕ → Bulk)
      → Network B J
      → PipelineHandle
      → StageArgs
      → ℕ
      → Network B J × Outcome (Option ℤ)
  unfolding synchronous call
  stage_data expose net handle args memory = with_self net handle λ self.
      synchronous
        (call backend host net self.ph (Requests.stage self.name (exposed expose self args memory)))

  unfoldable pub stage_data_request :
      (ℕ → ℕ → Bulk)
      → Bool
      → Network B J
      → PipelineHandle
      → StageArgs
      → ℕ
      → Network B J × Outcome AsyncRequestImpl
  unfolding asynchronous call
  stage_data_request expose received net handle args memory = with_self net handle λ self.
      asynchronous received
        (call backend host net self.ph (Requests.stage self.name (exposed expose self args memory)))

  -- PipelineHandle::execute
  unfoldable pub execute :
      Network B J → PipelineHandle → ℕ → Bool → Network B J × Outcome (Option ℤ)
  unfolding synchronous call
  execute net handle iteration auto_cleanup = with_self net handle λ self.
      synchronous
        (call backend host net self.ph (Requests.execute self.name iteration auto_cleanup))

  unfoldable pub execute_request :
      Bool → Network B J → PipelineHandle → ℕ → Bool → Network B J × Outcome AsyncRequestImpl
  unfolding asynchronous call
  execute_request received net handle iteration auto_cleanup = with_self net handle λ self.
      asynchronous received
        (call backend host net self.ph (Requests.execute self.name iteration auto_cleanup))

  -- PipelineHandle::cleanup
  unfoldable pub cleanup : Network B J → PipelineHandle → ℕ → Network B J × Outcome (Option ℤ)
  unfolding synchronous call
  cleanup net handle iteration =
      with_self net handle
        λ self. synchronous (call backend host net self.ph (Requests.cleanup self.name iteration))

  unfoldable pub cleanup_request :
      Bool → Network B J → PipelineHandle → ℕ → Network B J × Outcome AsyncRequestImpl
  unfolding asynchronous call
  cleanup_request received net handle iteration = with_self net handle λ self.
      asynchronous received (call backend host net self.ph (Requests.cleanup self.name iteration))

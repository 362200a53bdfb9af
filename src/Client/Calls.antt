-- ===== src/Client/Calls.antt =====
-- src/PipelineHandle.cpp: synchronous and asynchronous calls, and what becomes of failures.
use mochi_colza.Base.{
  ℕ, Bool, false, Option, none, some, [], ◌∷◌, ℤ, ◌≡◌, ◌≢◌, refl, sym, subst, ap, ◌∙◌, arith,
  string_eq, nat_eq,
}
use mochi_colza.Base.Map.{lookup, lookup-insert_self}
use mochi_colza.Result.{
  RequestResult, Outcome, ok, throw, throw_std, exception, invalid_group_hash, check_response,
}
use mochi_colza.Backend.{Backend, Bulk, StageArgs}
use mochi_colza.Async.Object.{
  Waited, returned, silent, raised, raised_std, undefined, AsyncRequestImpl,
}
use mochi_colza.Async.Handles
use mochi_colza.Async.Sharing.{IsDone}
use mochi_colza.Async.Storing.{AreNew, assigns_new}
use mochi_colza.Client.Asynchronous.{
  let_out, after_store, store_request, keep_request, stage_async, stage_data_async, execute_async,
  cleanup_async,
}
use mochi_colza.Provider.State.{Provider}
use mochi_colza.Provider.Pipelines.{Host}
use mochi_colza.Provider.Iterations
use mochi_colza.Provider.Requests
use mochi_colza.Provider.Requests.{Request}
use mochi_colza.Client.Network.{ProviderHandle, Reply, answered, failed, Network, call, handle_eq}
use mochi_colza.Client.PipelineHandle.{
  PipelineHandleImpl, PipelineHandle, pipeline_callback, synchronous, asynchronous, with_self,
  sender, exposed, start, stage, stage_request, stage_data, stage_data_request, execute,
  execute_request, cleanup, cleanup_request,
}

-- What a wait gives where the synchronous call ended so.
abbrev pub Waits : Outcome (Option ℤ) → Waited → Type 0
Waits (ok v) w = w ≡ returned v
Waits (throw e) w = w ≡ raised e
Waits (throw_std what) w = ⊥

-- A call that keeps its request in the variable x, and the synchronous call: the call comes back, and
-- a wait on the variable gives the synchronous call's outcome; or it raises what the synchronous call
-- raises, and the variables are as they were.
abbrev pub Delivers :
    Handles.Requests → ℕ → Outcome (Option ℤ) → Option (Handles.Requests × Outcome Unit) → Type 0
Delivers s x now none = ⊥
Delivers s x now (some (t, ok _)) = Waits now (Handles.wait t x).1
Delivers s x now (some (t, throw e)) = (now ≡ throw e) × (t ≡ s)
Delivers s x now (some (t, throw_std what)) = (now ≡ throw_std what) × (t ≡ s)

wait_new :
    (t : Handles.Requests) (x o : ℕ) (impl : AsyncRequestImpl)
    → Handles.self t x ≡ some o
    → lookup o t.objects ≡ some impl
    → impl.waited ≡ false
    → (Handles.wait t x).1 ≡ (impl.wait_callback impl.async_responses).1
unfolding Handles.wait
wait_new t x o impl at there new = grind arith

callback_reads :
    (received : Bool) (response : RequestResult ℤ)
    → Waits
        (check_response response)
        (pipeline_callback
          (record { received = received; lost = none; arriving = response } ∷ [])).1
unfolding pipeline_callback check_response
callback_reads received response = ground arith

module _ (s : Handles.Requests) (x y o : ℕ) (ne : x ≢ y) (fresh : AreNew s y o)
    (done : IsDone (Handles.wait_if_unique s x).1) where
  let_out_done : (w : Waited) (u : Handles.Requests) → IsDone w → let_out w u ≡ some (u, ok tt)
  let_out_done (returned v) u d = refl
  let_out_done silent u d = refl
  let_out_done (raised e) u d = absurd d
  let_out_done (raised_std what) u d = absurd d
  let_out_done undefined u d = absurd d

  store_new :
      (impl : AsyncRequestImpl)
      → impl.waited ≡ false
      → (u : Handles.Requests) × (store_request s x y o impl ≡ some (u, ok tt))
        × ((Handles.wait u x).1 ≡ (impl.wait_callback impl.async_responses).1)
  unfolding store_request
  store_new impl new =
      let assignment =
        Handles.move_assign (Handles.make s y o impl.async_responses impl.wait_callback) x y in
      let (came_back, (u, destroyed, at, there)) =
        assigns_new s x y o ne fresh impl.async_responses impl.wait_callback done in
      (
        u,
        ap (after_store assignment.1) destroyed ∙ let_out_done assignment.1 u came_back,
        wait_new u x o (record impl { waited = false }) at there refl,
      )

  keep-Delivers :
      {N : Type 0} (received : Bool) (reply : N × Reply)
      → Delivers s x (synchronous reply).1 (keep_request s x y o (asynchronous received reply)).1
  unfolding synchronous asynchronous keep_request
  keep-Delivers received (net, answered response) =
      let impl : AsyncRequestImpl = record {
        async_responses = record { received = received; lost = none; arriving = response } ∷ [];
        waited = false;
        wait_callback = pipeline_callback;
      } in
      let (u, stored, waits) = store_new impl refl in
      subst (λ r. Delivers s x (check_response response) r) (sym stored)
        (subst (λ w. Waits (check_response response) w) (sym waits)
          (callback_reads received response))
  keep-Delivers received (net, failed what) = (refl, refl)

  with_self-Delivers :
      {B J : Type 0} (backend : Backend B) (host : Host B J) (net : Network B J)
      (handle : PipelineHandle) (received : Bool) (request : PipelineHandleImpl → Request)
      → Delivers s x
          (with_self net handle
            (λ self. synchronous (call backend host net self.ph (request self)))).1
          (keep_request s x y o (
            with_self net handle
              (λ self. asynchronous received (call backend host net self.ph (request self))))).1
  unfolding keep_request
  with_self-Delivers backend host net none received request = (refl, refl)
  with_self-Delivers backend host net (some self) received request =
      keep-Delivers received (call backend host net self.ph (request self))

  -- Where *req holds no request that is still to be waited for by it alone, or one whose wait raises
  -- no exception, then stage of either kind, execute and cleanup with req come back, and a wait on *req
  -- gives what the call without req gives, as a result or as an exception; or, where no request could
  -- be sent, the call raises at once what the call without req raises, and *req is as it was. The
  -- temporary and the object of the new request are new.
  pub calls-Delivers :
      {B J : Type 0} (backend : Backend B) (host : Host B J) (net : Network B J)
      (handle : PipelineHandle) (received : Bool) (expose : ℕ → ℕ → Bulk) (args : StageArgs)
      (memory iteration : ℕ) (auto_cleanup : Bool)
      → Delivers s x
          (stage backend host net handle args).1
          (stage_async backend host net s x y o received handle args).1
        × Delivers s x
            (stage_data backend host expose net handle args memory).1
            (stage_data_async backend host net s x y o expose received handle args memory).1
        × Delivers s x
            (execute backend host net handle iteration auto_cleanup).1
            (execute_async backend host net s x y o received handle iteration auto_cleanup).1
        × Delivers s x
            (cleanup backend host net handle iteration).1
            (cleanup_async backend host net s x y o received handle iteration).1
  unfolding stage stage_async stage_request stage_data stage_data_async stage_data_request execute
      execute_async execute_request cleanup cleanup_async cleanup_request
  calls-Delivers backend host net handle received expose args memory iteration auto_cleanup = (
    with_self-Delivers backend host net handle received (λ self.
        Requests.stage self.name (record args { sender_addr = sender self args.sender_addr })),
    with_self-Delivers backend host net handle received
        (λ self. Requests.stage self.name (exposed expose self args memory)),
    with_self-Delivers backend host net handle received
        (λ self. Requests.execute self.name iteration auto_cleanup),
    with_self-Delivers backend host net handle received
        (λ self. Requests.cleanup self.name iteration),
  )

module _ {B J : Type 0} (backend : Backend B) (host : Host B J) (net : Network B J) where
  -- The handle to one pipeline sends the group hash 0: its start fails with INVALID_GROUP_HASH at
  -- every provider whose hash is another, and changes nothing there.
  pub start_needs_hash_zero :
      (self : PipelineHandleImpl) (p : Provider B J) (iteration : ℕ)
      → lookup self.ph net ≡ some p
      → p.group_hash ≢ 0
      → (start backend host net (some self) iteration).1
          ≡ throw (exception invalid_group_hash "Inconsistent group view")
        × (lookup self.ph (start backend host net (some self) iteration).0 ≡ some p)
  unfolding start Iterations.start
  start_needs_hash_zero self p iteration there ne =
      grind (arith, lookup-insert_self {K = ProviderHandle} self.ph p net)

-- After a failure that an asynchronous call reports, the request counts as not waited for, and a
-- second wait, such as that of the destructor, reads the first element of the vector that the first
-- wait has cleared.
pub wait_after_failure :
    (s : Handles.Requests) (x o : ℕ) (received : Bool) (response : RequestResult ℤ)
    → lookup x s.handles ≡ some (some o)
    → lookup o s.objects
      ≡ some (record {
        async_responses = record { received = received; lost = none; arriving = response } ∷ [];
        waited = false;
        wait_callback = pipeline_callback;
      })
    → response.success ≡ false
    → ((Handles.wait s x).1 ≡ raised (record { code = response.value; what = response.error }))
      × ((Handles.wait (Handles.wait s x).0 x).1 ≡ undefined)
unfolding Handles.wait pipeline_callback
wait_after_failure s x o received response at there failure =
    grind (arith, lookup-insert_self {K = ℕ} {V = AsyncRequestImpl})

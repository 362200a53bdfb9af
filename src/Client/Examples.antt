-- ===== src/Client/Examples.antt =====
-- The theorems about clients at a concrete system, and tests.
use mochi_colza.Base.{
  ℕ, ◌≡◌, refl, String, true, false, ◌&&◌, ◌⊎◌, none, some, [], ◌∷◌, ◌++◌, pos, nat_eq, string_eq,
  map, arith,
}
use mochi_colza.Base.Map.{lookup, insert, total}
use mochi_colza.Group.{compute_group_hash}
use mochi_colza.Provider.Pipelines.{check_pipeline}
use mochi_colza.Result.{to_int, throw, exception, ssg_error}
use mochi_colza.Backend.{Bulk}
use mochi_colza.Async.Object.{raised}
use mochi_colza.Provider.Iterations
use mochi_colza.Provider.Samples.{backend, host, block}
use mochi_colza.Dummy.Pipeline
use mochi_colza.Client.Network.{handle_eq}
use mochi_colza.Client.PipelineHandle
use mochi_colza.Client.PipelineHandle.{PipelineHandleImpl, pipeline_callback}
use mochi_colza.Async.Handles.{Requests, wait_if_unique}
use mochi_colza.Async.Storing.{AreNew}
use mochi_colza.Client.Asynchronous.{stage_async, stage_data_async, execute_async, cleanup_async}
use mochi_colza.Client.Calls.{Delivers, calls-Delivers}
use mochi_colza.Client.Connect.{connect, new_impl, sent_ok, sent_failure, pipeline_at}
use mochi_colza.Client.Following.{follow, followed, raises, blocked}
use mochi_colza.Client.Agreement.{follow-connect}
use mochi_colza.Client.Stopping.{has_raised, all_described, has_group}
use mochi_colza.Client.Raising.{connect_raised}
use mochi_colza.Client.Distributed.{attempt}
use mochi_colza.Client.Calling.{running_at}
use mochi_colza.Client.AllOrNothing.{attempt_starts_none}
use mochi_colza.Client.Collective.{all_callback}
use mochi_colza.Client.Routing.{all_callback_lem}
use mochi_colza.Client.Start.{start_loop}
use mochi_colza.Client.Startable.{is_startable_at}
use mochi_colza.Client.Refreshed.{Succeeds, start_after_refresh}
use mochi_colza.Client.Together.{Joined, start_together}
use mochi_colza.Client.Samples.{
  server, ph, net, rank0, rank1, pipeline, handle, view, refresh, server-Fits, reply,
}

abbrev expose : ℕ → ℕ → Bulk
expose memory size = record { size = size; handle = memory }

-- The variable 1 holds a request, alone, whose wait is still to come and will not raise.
abbrev requests : Requests
requests = record {
  handles = (1, some 9) ∷ [];
  objects =
      (
        9,
        record {
          async_responses = reply true 7 ∷ [];
          waited = false;
          wait_callback = pipeline_callback;
        },
      )
      ∷ [];
}

requests-AreNew : AreNew requests 3 10
unfolding lookup total
requests-AreNew = record { no_variable = refl; no_object = refl; no_pointer = refl }

calls-Delivers_example :
    let busy = some (pipeline "c0" "busy") in
    Delivers requests 1
      (PipelineHandle.stage backend host net busy (block 4)).1
      (stage_async backend host net requests 1 3 10 false busy (block 4)).1
    × Delivers requests 1
        (PipelineHandle.stage_data backend host expose net busy (block 4) 1).1
        (stage_data_async backend host net requests 1 3 10 expose false busy (block 4) 1).1
    × Delivers requests 1
        (PipelineHandle.execute backend host net busy 4 true).1
        (execute_async backend host net requests 1 3 10 false busy 4 true).1
    × Delivers requests 1
        (PipelineHandle.cleanup backend host net busy 4).1
        (cleanup_async backend host net requests 1 3 10 false busy 4).1
unfolding wait_if_unique lookup total pipeline_callback
calls-Delivers_example =
    calls-Delivers requests 1 3 10 (λ e. absurd (omega (arith, e))) requests-AreNew tt backend host
      net (some (pipeline "c0" "busy")) false expose (block 4) 1 4 true

follow-connect_example :
    ((handle "c0" "idle" 12).pipelines ≡ map (pipeline_at rank0 0 "idle") (server ∷ []))
    × (follow rank1 "group.ssg" 0 "idle"
          ((connect backend host rank0 net view "group.ssg" 0 "idle" true).1 ++ sent_ok true ∷ [])
        ≡ followed
            (new_impl "idle" none "group.ssg" 0 (map (pipeline_at rank1 0 "idle") (server ∷ [])))
            (sent_ok true ∷ []))
unfolding connect lookup check_pipeline compute_group_hash
follow-connect_example =
    follow-connect backend host rank0 0 "idle" true net view "group.ssg" rank1
      (handle "c0" "idle" 12) (sent_ok true ∷ []) refl (server-Fits, tt) (refl, tt)

-- No provider of the group has the pipeline that the client asks for.
connect_raised_example :
    let connected = connect backend host rank0 net view "group.ssg" 0 "missing" true in
    (((has_group view && all_described view.members) ≡ false)
      × (connected.1 ≡ [])
      × ((text : String) × (connected.2 ≡ some (throw (exception ssg_error text))))
      × (follow rank1 "group.ssg" 0 "missing" connected.1 ≡ blocked))
    ⊎ ((has_group view ≡ true)
        × (connected.1 ≡ sent_failure ∷ [])
        × (has_raised connected.2 ≡ true)
        × (follow rank1 "group.ssg" 0 "missing" connected.1
            ≡ raises (throw (exception ssg_error "Master client could not resolve pipeline"))))
unfolding connect lookup check_pipeline
connect_raised_example =
    connect_raised backend host rank0 0 "missing" true net view "group.ssg" rank1 refl

attempt_starts_none_example :
    running_at (attempt backend host net (handle "c0" "idle" 8) 5).0 (pipeline "c0" "idle")
    ≡ running_at net (pipeline "c0" "idle")
unfolding attempt lookup Iterations.start
attempt_starts_none_example =
    attempt_starts_none backend host net (handle "c0" "idle" 8) 5 _ (pipeline "c0" "idle") refl refl

-- The client's first view of the group is outdated; the second is not.
start_together_example :
    let s = start_loop backend host rank0 (refresh ∷ []) net (handle "c0" "idle" 8) 5 in
    Joined rank0 rank1 true s.sent s.self (handle "c1" "idle" 0)
unfolding start_loop lookup insert Iterations.start Pipeline.start compute_group_hash to_int
start_together_example =
    start_together rank0 rank1 backend host (refresh ∷ []) net (handle "c0" "idle" 8)
      (handle "c1" "idle" 0) 5 true
      (record {
        servers = server ∷ [];
        same_name = refl;
        same_id = refl;
        here = refl;
        there = refl;
      })
      (((server-Fits, tt), (refl, tt)), tt) refl

start_after_refresh_example :
    Succeeds
      (start_loop backend host rank0 (refresh ∷ []) net (handle "c0" "idle" 8) 5)
      5
      (pipeline "c0" "idle" ∷ [])
unfolding lookup compute_group_hash Pipeline.start
start_after_refresh_example =
    start_after_refresh backend host rank0 refresh [] net (handle "c0" "idle" 8) 5 refl (refl, tt)
      (refl, refl, refl, ((refl, refl, server-Fits, refl), tt), (tt, tt))
      (λ now same. (rw (is_startable_at, same ph) refl, tt))

all_callback_lem_example :
    all_callback (reply true 1 ∷ reply false 2 ∷ reply false 3 ∷ reply true 4 ∷ [])
    ≡ ([], raised (record { code = some (pos 3); what = "" }))
all_callback_lem_example =
    all_callback_lem (reply true 1 ∷ reply false 2 ∷ reply false 3 ∷ reply true 4 ∷ [])

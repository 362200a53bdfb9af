-- ===== src/Provider/Threads.antt =====
-- src/ProviderImpl.hpp: handlers that overlap. A handler finds the shared state of its pipeline
-- under the lock, applies its tests, and then calls the backend without a lock; what it writes
-- afterwards goes to the object that it found, which the map may no longer hold. A schedule says
-- in which order handlers arrive and calls of the backend return.
mod Sums
mod Updating
pub mod Exclusive
mod Arrivals
mod Returns
pub mod Leaving
pub mod Races
mod Detached
pub mod Destroyed
pub mod View
mod Pairs
mod Returning
pub mod Alone
mod Examples
use mochi_colza.Base.{
  true, false, string_eq, nat_eq, ℕ, zero, suc, String, Bool, not, ◌&&◌, ◌||◌, Option, none, some,
  List, [], ◌∷◌, ◌++◌, ◌==◌, leb, if◌then◌else◌, length, get_elem?, set, ℤ,
}
use mochi_colza.Base.Map.{Map, lookup, insert, erase}
use mochi_colza.Result.{RequestResult}
use mochi_colza.Backend.{Backend, StageArgs}
use mochi_colza.Provider.State.{PipelineState, increment, decrement}
use mochi_colza.Group.{update_group_hash}
use mochi_colza.Backend.{NaAddr}
use mochi_colza.Provider.Shared.{
  change_group, update_addresses, Task, starting, staging, executing, cleaning, aborting, object,
  Shared, Event, install, destroy, start, stage, execute, cleanup, abort, resume, leave, take_out,
}

module _ {B : Type 0} where
  -- The object under a name.
  unfoldable pub find : Shared B → String → Option (ℕ × PipelineState B)
  find s name = elim (lookup name s.names) [
    | none ↦ none
    | some o ↦ elim (get_elem? s.objects o) [ none ↦ none | some state ↦ some (o, state) ]
  ]

  -- FIND_PIPELINE, with the rest of the handler.
  abbrev pub found :
      Shared B → Option (ℕ × PipelineState B) → (ℕ → PipelineState B → Shared B) → Shared B
  found s none rest = s
  found s (some (o, state)) rest = rest o state

  -- A handler that has passed its tests calls the backend.
  abbrev pub call : Shared B → Task → Shared B
  call s task = record s { tasks = task ∷ s.tasks }

  -- The tests of `stage`, `execute`, `cleanup` and `abort`.
  unfoldable pub begin_during : Shared B → String → ℕ → (ℕ → Task) → Shared B
  unfolding find
  begin_during s name iteration task =
      found s (find s name)
        λ o state. if state.active && (state.iteration == iteration) then call s (task o) else s

  -- `start` up to the call of the backend.
  unfoldable pub begin_start : Shared B → ℕ → String → ℕ → Shared B
  unfolding find
  begin_start s group_hash name iteration =
      if not (group_hash == s.group_hash)
      then s
      else found s (find s name) λ o state.
        if state.active || (not (state.iteration == 0) && leb iteration state.iteration)
        then s
        else record s {
          num_active_pipelines = increment s.num_active_pipelines;
          tasks = starting o iteration ∷ s.tasks;
        }

  unfoldable pub install_object : Shared B → String → B → Shared B
  install_object s name b = record s {
    objects = s.objects ++ record { pipeline = b; active = false; iteration = 0 } ∷ [];
    names = insert name (length s.objects) s.names;
  }

  -- The lock is held from the test to the removal, the call of the backend included.
  unfoldable pub destroy_object : Backend B → Shared B → String → Shared B
  unfolding find
  destroy_object backend s name = found s (find s name) λ o state.
      if state.active then s else record s {
        objects = set s.objects o (record state { pipeline = (backend.destroy state.pipeline).0 });
        names = erase name s.names;
      }

  unfoldable pub try_leave : Shared B → Shared B
  try_leave s =
      if s.num_active_pipelines == 0
      then record s { left = true; finalized = true; names = [] }
      else s

  abbrev pub write : Shared B → ℕ → PipelineState B → Shared B
  write s o state = record s { objects = set s.objects o state }

  -- The end of `start`.
  unfoldable pub end_start : Shared B → ℕ → ℕ → PipelineState B → B × RequestResult ℤ → Shared B
  end_start s o iteration state (b, result) =
      if result.success
      then write s o (record { pipeline = b; active = true; iteration = iteration })
      else record s {
        objects = set s.objects o (record state { pipeline = b });
        num_active_pipelines = decrement s.num_active_pipelines;
      }

  -- The end of `cleanup`, and of `execute` with automatic cleanup.
  unfoldable pub end_cleanup : Shared B → ℕ → PipelineState B → B × RequestResult ℤ → Shared B
  end_cleanup s o state (b, result) =
      if result.success
      then record s {
        objects = set s.objects o (record state { pipeline = b; active = false });
        num_active_pipelines = decrement s.num_active_pipelines;
      }
      else write s o (record state { pipeline = b })

  -- The end of `execute`, or its call of `cleanup`.
  unfoldable pub end_execute :
      Shared B → ℕ → ℕ → Bool → PipelineState B → B × RequestResult ℤ → Shared B
  end_execute s o iteration auto_cleanup state (b, result) =
      let written = write s o (record state { pipeline = b }) in
      if result.success && auto_cleanup then call written (cleaning o iteration) else written

  unfoldable pub end_abort : Shared B → ℕ → PipelineState B → B → Shared B
  end_abort s o state b = record s {
    objects =
        set s.objects o
          (record { pipeline = b; active = false; iteration = decrement state.iteration });
    num_active_pipelines = decrement s.num_active_pipelines;
  }

  unfoldable pub update_object :
      Backend B → List NaAddr → ℕ → List (PipelineState B) → List (PipelineState B)
  update_object backend addresses o objects = elim (get_elem? objects o) [
    | none ↦ objects
    | some state ↦
        set objects o
          (record state { pipeline = backend.update_mona_addresses addresses state.pipeline })
  ]

  module _ (backend : Backend B) where
    -- The loop of a membership update over the pipelines in the map.
    unfoldable pub update_named :
        List NaAddr → Map String ℕ → List (PipelineState B) → List (PipelineState B)
    unfolding update_object
    update_named addresses [] objects = objects
    update_named addresses ((name, o) ∷ names) objects =
        update_named addresses names (update_object backend addresses o objects)

    -- The backend's call, on the object as it then is, and the rest of the handler.
    unfoldable pub end_task : Shared B → Task → PipelineState B → Shared B
    unfolding end_start end_cleanup end_execute end_abort
    end_task s (starting o i) state = end_start s o i state (backend.start i state.pipeline)
    end_task s (staging o args) state =
        write s o (record state { pipeline = (backend.stage args state.pipeline).0 })
    end_task s (executing o i auto_cleanup) state =
        end_execute s o i auto_cleanup state (backend.execute i state.pipeline)
    end_task s (cleaning o i) state = end_cleanup s o state (backend.cleanup i state.pipeline)
    end_task s (aborting o i) state = end_abort s o state (backend.abort i state.pipeline)

    -- The handler that returns, and those that still wait.
    unfoldable pub resume_taken : Shared B → Option (Task × List Task) → Shared B
    unfolding end_task
    resume_taken s none = s
    resume_taken s (some (task, rest)) = elim (get_elem? s.objects (object task)) [
      | none ↦ s
      | some state ↦ end_task (record s { tasks = rest }) task state
    ]

    unfoldable pub resume_task : Shared B → ℕ → Shared B
    unfolding resume_taken take_out
    resume_task s n = resume_taken s (take_out n s.tasks)

    unfoldable pub step : Shared B → Event B → Shared B
    unfolding begin_start begin_during install_object destroy_object resume_task try_leave
        update_named
    step s (install name b) = install_object s name b
    step s (destroy name) = destroy_object backend s name
    step s (start group_hash name i) = begin_start s group_hash name i
    step s (stage name args) = begin_during s name args.iteration (λ o. staging o args)
    step s (execute name i auto_cleanup) = begin_during s name i (λ o. executing o i auto_cleanup)
    step s (cleanup name i) = begin_during s name i (λ o. cleaning o i)
    step s (abort name i) = begin_during s name i (λ o. aborting o i)
    step s (resume n) = resume_task s n
    step s leave = try_leave s
    step s (change_group id) = record s { group_hash = update_group_hash s.group_hash id }
    step s (update_addresses addresses) = record s {
      objects = update_named addresses s.names s.objects;
    }

    unfoldable pub run : Shared B → List (Event B) → Shared B
    unfolding step
    run s [] = s
    run s (e ∷ es) = run (step s e) es

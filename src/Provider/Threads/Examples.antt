-- ===== src/Provider/Threads/Examples.antt =====
-- The theorems about handlers that overlap, at concrete schedules, and tests.
use mochi_colza.Base.{
  ◌++◌, String, ℕ, zero, suc, ◌≤◌, ◌≡◌, refl, ◌↔◌, inr, true, false, some, [], ◌∷◌, List, arith,
  nat_eq, string_eq, get_elem?,
}
use mochi_colza.Base.Map.{lookup, insert, erase}
use mochi_colza.Dummy.Pipeline
use mochi_colza.Provider.State.{PipelineState}
use mochi_colza.Provider.Invariant.{weight}
use mochi_colza.Provider.Requests
use mochi_colza.Provider.Threads.{find, run, step}
use mochi_colza.Provider.Shared.{Shared, Event, starting, start, stage, cleanup, resume, leave}
use mochi_colza.Provider.Threads.Sums.{sum, at}
use mochi_colza.Provider.Threads.Exclusive.{Sound, AreExclusive}
use mochi_colza.Provider.Threads.Leaving.{IsQuiet, run-Sound, leave-IsQuiet}
use mochi_colza.Provider.Threads.Races.{overlapping_cleanups_let_leave}
use mochi_colza.Provider.Threads.Destroyed.{destroyed_start, destroyed_start_blocks_leave}
use mochi_colza.Provider.Threads.View.{Agrees, alone, view, IsInjective}
use mochi_colza.Provider.Threads.Alone.{alone-serve}
use mochi_colza.Provider.Samples.{Pipe, backend, host, busy_provider, idle_pipe, block}

-- Object 0 is the pipeline "idle", last started at iteration 3; object 1 is "busy" and runs
-- iteration 4, and object 2 is "other" and runs iteration 1.
abbrev idle_state : PipelineState Pipe
idle_state = record { pipeline = idle_pipe; active = false; iteration = 3 }

abbrev busy_state : PipelineState Pipe
busy_state = record { pipeline = idle_pipe; active = true; iteration = 4 }

abbrev other_state : PipelineState Pipe
other_state = record { pipeline = idle_pipe; active = true; iteration = 1 }

abbrev two_pipelines : Shared Pipe
two_pipelines = record {
  group_hash = 12;
  objects = idle_state ∷ busy_state ∷ [];
  names = ("idle", 0) ∷ ("busy", 1) ∷ [];
  num_active_pipelines = 1;
  tasks = [];
  left = false;
  finalized = false;
}

abbrev three_pipelines : Shared Pipe
three_pipelines = record two_pipelines {
  objects = idle_state ∷ busy_state ∷ other_state ∷ [];
  names = ("idle", 0) ∷ ("busy", 1) ∷ ("other", 2) ∷ [];
  num_active_pipelines = 2;
}

at_le : (o : ℕ) → at weight two_pipelines.objects o ≤ 1
at_le zero = omega arith
at_le (suc zero) = omega arith
at_le (suc (suc o)) = omega arith

two-Sound : Sound two_pipelines
unfolding sum
two-Sound = record {
  starting = λ o. omega (arith, at_le o);
  ending = λ o. omega arith;
  counted = refl;
}

-- The start of "idle" overlaps a stage and the cleanup of "busy", which returns first.
abbrev overlapping : List (Event Pipe)
overlapping =
    start 12 "idle" 5 ∷ stage "busy" (block 4) ∷ cleanup "busy" 4 ∷ resume 0 ∷ resume 0 ∷ []

after_overlapping : (run backend two_pipelines overlapping).tasks ≡ starting 0 5 ∷ []
unfolding run find lookup insert Pipeline.stage Pipeline.cleanup
after_overlapping = refl

overlapping-AreExclusive : AreExclusive backend two_pipelines overlapping
unfolding run find lookup insert Pipeline.stage Pipeline.cleanup sum step
overlapping-AreExclusive =
    (λ o state e. (refl, refl), (tt, (λ o state e. (ground arith, refl), (tt, (tt, tt)))))

run-Sound_example : Sound (run backend two_pipelines overlapping)
unfolding run sum find lookup
run-Sound_example = run-Sound backend two_pipelines overlapping two-Sound overlapping-AreExclusive

leave-IsQuiet_example :
    ((step backend (run backend two_pipelines overlapping) leave).left ≡ true)
    ↔ IsQuiet (run backend two_pipelines overlapping)
unfolding run find lookup insert Pipeline.stage Pipeline.cleanup
leave-IsQuiet_example =
    leave-IsQuiet backend two_pipelines overlapping two-Sound overlapping-AreExclusive (omega arith)
      refl

overlapping_cleanups_let_leave_example :
    let t =
      run backend three_pipelines
        (cleanup "busy" 4 ∷ cleanup "busy" 4 ∷ resume 0 ∷ resume 0 ∷ leave ∷ []) in
    (t.left ≡ true) × (get_elem? t.objects 2 ≡ some other_state)
unfolding find lookup Pipeline.cleanup
overlapping_cleanups_let_leave_example =
    overlapping_cleanups_let_leave backend three_pipelines "busy" 1 4 2 busy_state other_state refl
      refl refl refl (omega arith) refl refl refl refl

only_idle : (m : String) → lookup m two_pipelines.names ≡ some 0 → m ≡ "idle"
unfolding lookup
only_idle m e = ground (arith, string_eq.same_iff "idle" m, string_eq.same_iff "busy" m)

destroyed-AreExclusive :
    AreExclusive backend two_pipelines
      (destroyed_start 12 "idle" 5 ++ cleanup "busy" 4 ∷ resume 0 ∷ [])
unfolding run find lookup erase Pipeline.start sum step
destroyed-AreExclusive =
    (λ o state e. (refl, refl), (tt, (tt, (λ o state e. (refl, refl), (tt, tt)))))

destroyed_start_blocks_leave_example :
    let t =
      run backend two_pipelines (destroyed_start 12 "idle" 5 ++ cleanup "busy" 4 ∷ resume 0 ∷ []) in
    step backend t leave ≡ t
unfolding run find lookup erase Pipeline.start Pipeline.cleanup sum
destroyed_start_blocks_leave_example =
    destroyed_start_blocks_leave backend two_pipelines 12 "idle" 0 5 idle_state
      (cleanup "busy" 4 ∷ resume 0 ∷ []) two-Sound refl refl only_idle refl refl (inr (omega arith))
      refl destroyed-AreExclusive (omega arith)

two-Agrees : Agrees two_pipelines (busy_provider 4)
unfolding view find lookup
two-Agrees = record { hash = refl; count = refl; same = λ name. ground arith; none_waits = refl }

two-IsInjective : IsInjective two_pipelines.names
unfolding lookup
two-IsInjective m n o e f = ground (
  arith,
  string_eq.same_iff "idle" m,
  string_eq.same_iff "busy" m,
  string_eq.same_iff "idle" n,
  string_eq.same_iff "busy" n,
)

alone-serve_example :
    let r = Requests.execute "busy" 4 true in
    Agrees (run backend two_pipelines (alone r)) (Requests.serve backend host (busy_provider 4) r).0
alone-serve_example =
    alone-serve backend host two_pipelines (busy_provider 4) (Requests.execute "busy" 4 true)
      two-Agrees two-IsInjective tt

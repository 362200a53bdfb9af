-- ===== src/Provider/Examples.antt =====
-- The theorems about a provider at concrete states, and tests.
use mochi_colza.Base.{
  ◌==◌, if◌then◌else◌, ℕ, ◌≡◌, refl, ◌↔◌, true, false, none, some, [], ◌∷◌, arith, nat_eq,
  string_eq,
}
use mochi_colza.Base.OrderedMap
use mochi_colza.Base.Map
use mochi_colza.Base.Map.{lookup, insert, erase, total}
use mochi_colza.Dummy.Pipeline
use mochi_colza.Provider.State.{PipelineState}
use mochi_colza.Provider.Pipelines.{create_pipeline, check_pipeline}
use mochi_colza.Provider.Iterations.{start, stage, execute, cleanup, abort, leave}
use mochi_colza.Provider.Invariant.{Inv}
use mochi_colza.Provider.Requests
use mochi_colza.Provider.Requests.{Request, target, serve, run}
use mochi_colza.Provider.Histories.{run-Inv, IsQuiet, leave_iff}
use mochi_colza.Provider.Phases.{Move, idle, running, phase, serve-Move}
use mochi_colza.Provider.Frame.{serve_elsewhere}
use mochi_colza.Provider.Overwrite.{create_over_active_blocks_leave}
use mochi_colza.Provider.Outcomes.{
  IsStartable, start_accepts_iff, IsOutOfTurn, IsOutOfTurn-refused, SameView, failure_keeps_phase,
}
use mochi_colza.Provider.Membership.{
  Mona, ask_until, member_joined, membership_thread, tell_pipelines, request_mona_address,
}
use mochi_colza.Provider.Resolving.{ask_until_first}
use mochi_colza.Provider.Updates.{Updated, membership_thread_lem}
use mochi_colza.Provider.Retry.{start-abort, abort_zero_blocks_start}
use mochi_colza.Provider.Samples.{
  Pipe, backend, host, empty_provider, busy_provider, idle_pipe, block, history,
}

-- The history starts two iterations, completes one and aborts the other; the second start of
-- iteration 4 is refused.
after_history : phase (run backend host empty_provider history) "a" ≡ some (idle 4)
unfolding run lookup insert Requests.serve create_pipeline start stage execute cleanup abort
    Pipeline.create Pipeline.start Pipeline.execute Pipeline.cleanup
after_history = refl

empty-Inv : Inv empty_provider
unfolding total
empty-Inv = record { distinct = tt; counted = refl }

busy-Inv : (n : ℕ) → Inv (busy_provider n)
unfolding total lookup
busy-Inv n = record { distinct = (refl, (refl, tt)); counted = refl }

run-Inv_example : Inv (run backend host empty_provider history)
unfolding run lookup insert Requests.serve create_pipeline start stage execute cleanup abort
run-Inv_example =
    run-Inv backend host empty_provider history empty-Inv
      (refl, (tt, (tt, (tt, (tt, (tt, (tt, (tt, tt))))))))

leave_iff_example :
    (IsQuiet (busy_provider 4) ↔ (
      leave (busy_provider 4)
      ≡ some (record (busy_provider 4) { left = true; finalized = true; pipelines = [] })))
    × ((¬ IsQuiet (busy_provider 4)) ↔ (leave (busy_provider 4) ≡ none))
leave_iff_example = leave_iff (busy_provider 4) (busy-Inv 4) (omega arith)

serve-Move_example : Move (some (running 4)) (some (idle 4)) (Requests.cleanup "busy" 4)
unfolding lookup insert Requests.serve cleanup Pipeline.cleanup erase
serve-Move_example = serve-Move backend host (busy_provider 4) (Requests.cleanup "busy" 4)

serve_elsewhere_example :
    lookup "idle" (serve backend host (busy_provider 4) (Requests.abort "busy" 4)).0.pipelines
    ≡ some (record { pipeline = idle_pipe; active = false; iteration = 3 })
unfolding lookup
serve_elsewhere_example =
    serve_elsewhere backend host (busy_provider 4) (Requests.abort "busy" 4) "idle"
      (λ e. cc ((string_eq.same_iff "busy" "idle").1 e))

create_over_active_blocks_leave_example :
    leave (
      run backend host
        (create_pipeline backend host (busy_provider 4) "" "busy" "dummy" "" "").0
        (Requests.check "busy" ∷ []))
    ≡ none
unfolding run lookup insert Requests.serve create_pipeline check_pipeline Pipeline.create
create_over_active_blocks_leave_example =
    create_over_active_blocks_leave backend host (busy_provider 4) "" "busy" "dummy" "" ""
      (Requests.check "busy" ∷ []) (busy-Inv 4) refl refl (tt, tt) (omega arith)

start_accepts_iff_example : ((start backend (busy_provider 4) 12 "idle" 7).1.success ≡ true) ↔ (
    (◌≡◌ {A = ℕ} 12 12)
    × ((s : PipelineState Pipe) × (lookup "idle" (busy_provider 4).pipelines ≡ some s)
        × IsStartable backend (busy_provider 4) s 7))
start_accepts_iff_example = start_accepts_iff backend (busy_provider 4) 12 "idle" 7

IsOutOfTurn-refused_example :
    IsOutOfTurn backend (busy_provider 4) (stage backend (busy_provider 4) "busy" (block 5))
    × IsOutOfTurn backend (busy_provider 4) (execute backend (busy_provider 4) "busy" 5 true)
    × IsOutOfTurn backend (busy_provider 4) (cleanup backend (busy_provider 4) "busy" 5)
    × IsOutOfTurn backend (busy_provider 4) (abort backend (busy_provider 4) "busy" 5)
unfolding lookup
IsOutOfTurn-refused_example =
    IsOutOfTurn-refused backend (busy_provider 4) "busy" 5 (block 5) true (λ e. cc) refl

failure_keeps_phase_example :
    SameView backend host
      (busy_provider 4)
      (serve backend host (busy_provider 4) (Requests.start 12 "busy" 5)).0
      "busy"
unfolding lookup Requests.serve start
failure_keeps_phase_example =
    failure_keeps_phase backend host (busy_provider 4) (Requests.start 12 "busy" 5) (omega arith)
      (λ token name e. cc) refl

start-abort_example :
    (start backend (abort backend (busy_provider 4) "busy" 4).0 12 "busy" 4).1.success ≡ true
unfolding lookup abort Pipeline.start Pipeline.abort
start-abort_example =
    start-abort backend (busy_provider 4) "busy" 4
      (record { pipeline = idle_pipe; active = true; iteration = 4 }) refl refl refl (omega arith)
      (omega arith) refl

abort_zero_blocks_start_example :
    (start backend (abort backend (busy_provider 0) "busy" 0).0 12 "busy" 1).1.success ≡ false
unfolding lookup
abort_zero_blocks_start_example =
    abort_zero_blocks_start backend (busy_provider 0) "busy" refl 12 1 (omega arith)

-- Members 5, 9 and 12, of which 9 answers its second call.
abbrev mona : Mona
mona = record {
  self = 120;
  addr_lookup = λ text. some 90;
  ask = λ id n. if n == 0 then none else some "na+sm://9";
}

ask_until_first_example : ask_until mona 3 9 0 ≡ some "na+sm://9"
ask_until_first_example =
    ask_until_first mona 9 1 0 3 "na+sm://9" (λ j low high. ground arith) refl (omega arith)

membership_thread_lem_example :
    Updated
      (busy_provider 4)
      (record (busy_provider 4) { mona_addresses = (5, 50) ∷ (9, 90) ∷ (12, 90) ∷ [] })
      12
      true
unfolding membership_thread request_mona_address tell_pipelines Map.map_values OrderedMap.insert
    ask_until Pipeline.update_mona_addresses
membership_thread_lem_example =
    membership_thread_lem backend mona 3 (busy_provider 4)
      (record (busy_provider 4) { mona_addresses = (5, 50) ∷ (9, 90) ∷ (12, 90) ∷ [] }) 12
      member_joined (busy-Inv 4) refl

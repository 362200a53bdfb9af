-- ===== src/Async/Waiting.antt =====
-- src/AsyncRequest.cpp: what `wait` and `completed` do, through whichever handle.
use mochi_colza.Base.{ℕ, ◌≡◌, refl, true, List, [], ◌∷◌, nat_eq, arith}
use mochi_colza.Base.Map.{lookup-insert}
use mochi_colza.Async.Object.{AsyncResponse, AsyncRequestImpl, silent, completed_loop}
use mochi_colza.Async.Handles.{Requests, self, wait, completed}
use mochi_colza.Async.Sharing.{IsDone}

-- A wait that came back without an exception is the last that does anything: from then on, a wait
-- through any handle of the same request is silent and changes nothing, so that the callback runs
-- once.
pub wait_once :
    (s : Requests) (x y : ℕ)
    → self s y ≡ self s x
    → IsDone (wait s x).1
    → wait (wait s x).0 y ≡ ((wait s x).0, silent)
unfolding wait
wait_once s x y same d = grind (arith, lookup-insert {K = ℕ} {V = AsyncRequestImpl})

completed_loop-true : (rs : List AsyncResponse) → completed_loop true rs ≡ true
unfolding completed_loop
completed_loop-true [] = refl
completed_loop-true (r ∷ rs) = completed_loop-true rs

-- completed answers yes for every request, also while none of its responses has been received.
pub completed-true : (s : Requests) (x : ℕ) → completed s x ≡ true
unfolding completed
completed-true s x = grind (arith, completed_loop-true)

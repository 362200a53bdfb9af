-- ===== src/Async/Examples.antt =====
-- Programs over handles of requests, at concrete states.
use mochi_colza.Base.{◌≡◌, refl, true, false, none, some, [], ◌∷◌, pos, nat_eq, arith}
use mochi_colza.Base.Map.{lookup, insert, erase, total}
use mochi_colza.Async.Object.{AsyncResponse, returned, silent, Callback}
use mochi_colza.Async.Handles
use mochi_colza.Async.Handles.{Requests, self, pointee, completed, wait_if_unique, after_wait}
use mochi_colza.Async.Sharing.{IsHeld}
use mochi_colza.Async.Programs
use mochi_colza.Async.Programs.{Action, Reaches, here, next, act, Reaches-IsHeld}
use mochi_colza.Async.Waiting.{wait_once}

-- A response that has not been received yet, and a callback that writes 7.
abbrev pending : AsyncResponse
pending = record {
  received = false;
  lost = none;
  arriving = record { success = true; error = ""; value = some (pos 7) };
}

abbrev writes_seven : Callback
writes_seven rs = ([], returned (some (pos 7)))

abbrev no_requests : Requests
no_requests = record { handles = []; objects = [] }

-- Variables 1 and 2 hold the request 9.
abbrev shared : Requests
shared = record {
  handles = (1, some 9) ∷ (2, some 9) ∷ [];
  objects =
      (9, record { async_responses = pending ∷ []; waited = false; wait_callback = writes_seven })
      ∷ [];
}

-- A request is made and copied, and both handles are destroyed: the second destructor waits.
abbrev after_both : Requests
after_both = record {
  handles = [];
  objects = (9, record { async_responses = []; waited = true; wait_callback = writes_seven }) ∷ [];
}

no_requests-IsHeld : IsHeld no_requests
unfolding lookup
no_requests-IsHeld = record { distinct = tt; unheld = λ o impl e n. absurd (ground arith) }

Reaches-IsHeld_example : IsHeld after_both
unfolding act Handles.make Handles.copy Handles.destroy lookup insert erase total self
Reaches-IsHeld_example =
    Reaches-IsHeld
      (next (Programs.destroy 2)
        (next (Programs.destroy 1)
          (next (Programs.copy 2 1)
            (next (Programs.make 1 9 (pending ∷ []) writes_seven) here (refl, refl) refl) refl refl)
          tt refl)
        tt refl)
      no_requests-IsHeld

wait_once_example : Handles.wait (Handles.wait shared 1).0 2 ≡ ((Handles.wait shared 1).0, silent)
unfolding self lookup Handles.wait
wait_once_example = wait_once shared 1 2 refl tt

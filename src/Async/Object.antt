-- ===== src/Async/Object.antt =====
-- src/AsyncRequestImpl.hpp: the object that the handles of a request share, and what its callback
-- may do.
use mochi_colza.Base.{Bool, true, ◌||◌, Option, List, [], ◌∷◌, ℤ, String}
use mochi_colza.Result.{RequestResult, Exception}

-- tl::async_response: whether the response has arrived, and the response that `wait` returns when
-- it has, unless the RPC fails after it was sent: `lost` then has the text of the exception that
-- `wait` throws.
pub record AsyncResponse : Type 0 where
  pub received : Bool
  pub lost : Option String
  pub arriving : RequestResult ℤ

-- What a wait comes to. `returned v` is a callback that returned; v is what it writes to the
-- caller's `*result`. `silent` is a wait that calls no callback, `undefined` one that reads a
-- vector outside its bounds. `raised` is an exception of the program, `raised_std` another one.
pub data Waited : Type 0 where
  returned : Option ℤ → Waited
  silent : Waited
  raised : Exception → Waited
  raised_std : String → Waited
  undefined : Waited

-- m_wait_callback: what becomes of `m_async_responses`, and how the callback ends.
abbrev pub Callback : Type 0
Callback = List AsyncResponse → List AsyncResponse × Waited

pub record AsyncRequestImpl : Type 0 where
  pub async_responses : List AsyncResponse
  pub waited : Bool
  pub wait_callback : Callback

-- The loop of `AsyncRequest::completed`.
unfoldable pub completed_loop : Bool → List AsyncResponse → Bool
completed_loop b [] = b
completed_loop b (r ∷ rs) = completed_loop (b || r.received) rs

-- The rest of `AsyncRequest::wait` once the callback is back: an exception leaves `m_waited` as it
-- is.
unfoldable pub settled : AsyncRequestImpl → List AsyncResponse × Waited → AsyncRequestImpl
settled impl (responses, returned v) = record impl { async_responses = responses; waited = true }
settled impl (responses, silent) = record impl { async_responses = responses; waited = true }
settled impl (responses, raised e) = record impl { async_responses = responses }
settled impl (responses, raised_std what) = record impl { async_responses = responses }
settled impl (responses, undefined) = record impl { async_responses = responses }

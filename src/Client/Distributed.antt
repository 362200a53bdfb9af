-- ===== src/Client/Distributed.antt =====
-- src/DistributedPipelineHandle.cpp: one attempt of rank 0 to start an iteration on
-- all servers.
use mochi_colza.Base.{
  ℕ, String, Bool, true, false, ◌||◌, some, List, [], ◌∷◌, ◌++◌, ℤ, negsuc, if◌then◌else◌, ◌==◌,
  nat_eq,
}
use mochi_colza.Result.{RequestResult, Outcome, ok, throw, throw_std}
use mochi_colza.Backend.{Backend}
use mochi_colza.Provider.Pipelines.{Host}
use mochi_colza.Provider.Requests
use mochi_colza.Provider.Requests.{Request}
use mochi_colza.Client.Network.{Reply, answered, failed, Network, call}
use mochi_colza.Client.PipelineHandle.{PipelineHandleImpl}
use mochi_colza.Client.Connect.{DistributedImpl}

-- What one attempt of `start` finds out: `ok`, `retry`, and the
-- pipelines that started.
pub record Attempt : Type 0 where
  pub is_ok : Bool
  pub retry : Bool
  pub started : List PipelineHandleImpl

-- (int)ErrorCode::INVALID_GROUP_HASH, as the value of a response
abbrev pub says_invalid_hash : RequestResult ℤ → Bool
says_invalid_hash result = elim result.value [ some (negsuc n) ↦ n == 13 | _ ↦ false ]

-- One response, and the loop over all, with the variables that they update.
unfoldable pub collect_one : Attempt → PipelineHandleImpl → RequestResult ℤ → Attempt
collect_one a p result =
    if result.success
    then record a { started = a.started ++ p ∷ [] }
    else record a { is_ok = false; retry = a.retry || says_invalid_hash result }

unfoldable pub collect : Attempt → List (PipelineHandleImpl × RequestResult ℤ) → Attempt
unfolding collect_one
collect a [] = a
collect a ((p, result) ∷ rest) = collect (collect_one a p result) rest

module _ {N : Type 0} where
  -- A step that may throw, with what follows it.
  unfoldable pub goes_on : {A C : Type 0} → N × Outcome A → (N → A → N × Outcome C) → N × Outcome C
  goes_on (net, ok a) rest = rest net a
  goes_on (net, throw e) rest = (net, throw e)
  goes_on (net, throw_std what) rest = (net, throw_std what)

  unfoldable pub reply_of : N × Reply → N × Outcome (RequestResult ℤ)
  reply_of (net, answered response) = (net, ok response)
  reply_of (net, failed what) = (net, throw_std what)

module _ {B J : Type 0} (backend : Backend B) (host : Host B J) where
  -- One request to each pipeline, in order. A request that cannot be sent throws.
  unfoldable pub send_all :
      Network B J
      → (String → Request)
      → List PipelineHandleImpl
      → Network B J × Outcome (List (PipelineHandleImpl × RequestResult ℤ))
  unfolding goes_on reply_of call
  send_all net request [] = (net, ok [])
  send_all net request (p ∷ pipelines) =
      goes_on (reply_of (call backend host net p.ph (request p.name))) λ net response.
        goes_on (send_all net request pipelines)
          λ net responses. (net, ok ((p, response) ∷ responses))

  -- The aborts of the pipelines that started. A request that cannot be sent is only logged.
  unfoldable pub abort_all : Network B J → ℕ → List PipelineHandleImpl → Network B J
  unfolding call
  abort_all net iteration [] = net
  abort_all net iteration (p ∷ started) =
      abort_all (call backend host net p.ph (Requests.abort p.name iteration)).0 iteration started

  -- One round of the loop of `start` on rank 0, up to the sleep.
  unfoldable pub settle_attempt :
      Network B J × Outcome (List (PipelineHandleImpl × RequestResult ℤ))
      → ℕ
      → Network B J × Outcome Attempt
  unfolding collect abort_all
  settle_attempt (net, ok responses) iteration =
      let a = collect (record { is_ok = true; retry = false; started = [] }) responses in
      (if a.is_ok then net else abort_all net iteration a.started, ok a)
  settle_attempt (net, throw e) iteration = (net, throw e)
  settle_attempt (net, throw_std what) iteration = (net, throw_std what)

  unfoldable pub attempt : Network B J → DistributedImpl → ℕ → Network B J × Outcome Attempt
  unfolding send_all settle_attempt
  attempt net self iteration =
      settle_attempt
        (send_all net (λ name. Requests.start self.group_hash name iteration) self.pipelines)
        iteration

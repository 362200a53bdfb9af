-- ===== src/Client/Accepting.antt =====
-- src/PipelineHandle.cpp and src/DistributedPipelineHandle.cpp: calls that the providers accept, and
-- what they leave as it was.
use mochi_colza.Base.{
  ℕ, ◌≡◌, refl, sym, ap, subst, ◌∙◌, zero, suc, true, false, none, some, List, [], ◌∷◌, All, arith,
  String, ℤ, ◌==◌, nat_eq, string_eq, inl, inr, Bool-cases, length, get_elem?, ◌≢◌,
}
use mochi_colza.Result.{RequestResult, Outcome, ok, throw, throw_std, check_response}
use mochi_colza.Backend.{Backend}
use mochi_colza.Provider.Pipelines.{Host}
use mochi_colza.Provider.Requests
use mochi_colza.Provider.Requests.{Request}
use mochi_colza.Provider.Phases.{Phase}
use mochi_colza.Client.Network.{Reply, answered, failed, Network, call, handle_eq}
use mochi_colza.Client.PipelineHandle.{PipelineHandleImpl, synchronous}
use mochi_colza.Client.Connect.{DistributedImpl}
use mochi_colza.Client.Distributed.{goes_on, send_all}
use mochi_colza.Client.Calling.{same_pipeline}
use mochi_colza.Client.Effects.{Responses, all_succeed}
use mochi_colza.Client.Collective.{wait_at_once, request_of, request_all, waited_for}
use mochi_colza.Client.Routing.{failures, first_lost, all_callback_lem}
use mochi_colza.Client.Rows.{call_elsewhere}
use mochi_colza.Client.Serving.{status_at, AllAt}

-- No response reports a failure.
no_failures :
    (rs : Responses) → all_succeed rs ≡ true → failures (request_of rs).async_responses ≡ []
no_failures [] h = refl
no_failures ((p, r) ∷ rs) h = grind (arith, no_failures rs)

none_lost : (rs : Responses) → first_lost (request_of rs).async_responses ≡ none
none_lost [] = refl
none_lost ((p, r) ∷ rs) = none_lost rs

pub synchronous_ok :
    {N : Type 0} (r : N × Reply) (response : RequestResult ℤ)
    → r.1 ≡ answered response
    → response.success ≡ true
    → synchronous r ≡ (r.0, ok response.value)
unfolding synchronous check_response
synchronous_ok (net, answered other) response e h =
    let same : other ≡ response = ground arith in rw (same, h) refl
synchronous_ok (net, failed what) response e h = absurd (ground arith)

pub All-get_elem? :
    {A : Type 0} (P : A → Type 0) (xs : List A) (i : ℕ) (x : A)
    → All P xs
    → get_elem? xs i ≡ some x
    → P x
All-get_elem? P [] i x h e = absurd (ground arith)
All-get_elem? P (y ∷ xs) zero x h e = let same : y ≡ x = ground arith in subst P same h.0
All-get_elem? P (y ∷ xs) (suc i) x h e = All-get_elem? P xs i x h.1 e

same_status :
    {B J : Type 0} (net : Network B J) (p q : PipelineHandleImpl)
    → same_pipeline p q ≡ true
    → status_at net p ≡ status_at net q
same_status net p q h =
    grind (arith, handle_eq.same_iff p.ph q.ph, string_eq.same_iff p.name q.name)

module _ {B J : Type 0} (backend : Backend B) (host : Host B J) where
  -- A request to one pipeline that keeps its status keeps the status of all.
  pub call_keeps :
      (net : Network B J) (p : PipelineHandleImpl) (request : String → Request) (hash : ℕ)
      (f : Phase) (qs : List PipelineHandleImpl)
      → Requests.target (request p.name) ≡ p.name
      → let after = (call backend host net p.ph (request p.name)).0 in
        status_at after p ≡ some (hash, f) → AllAt net hash f qs → AllAt after hash f qs
  call_keeps net p request hash f [] names now h = tt
  call_keeps net p request hash f (q ∷ qs) names now h =
      let others = call_keeps net p request hash f qs names now h.1 in
      elim (Bool-cases (same_pipeline p q)) [
        | inl at ↦ (sym (same_status _ p q at) ∙ now, others)
        | inr apart ↦
            (call_elsewhere backend host net p q (request p.name) names apart ∙ h.0, others)
      ]

  waited_ok :
      (r : Network B J × Outcome Responses) (rs : Responses)
      → r.1 ≡ ok rs
      → all_succeed rs ≡ true
      → waited_for backend host (goes_on r λ net all. (net, ok (some (request_of all))))
        ≡ (r.0, ok none)
  unfolding goes_on waited_for wait_at_once
  waited_ok (net, ok all) rs e h =
      let same : all ≡ rs = ground arith in
      rw
        (
          all_callback_lem (request_of all).async_responses,
          none_lost all,
          no_failures all (ap all_succeed same ∙ h),
        )
        refl
  waited_ok (net, throw x) rs e h = absurd (ground arith)
  waited_ok (net, throw_std what) rs e h = absurd (ground arith)

  -- A request to all pipelines from rank 0, and the wait for it, where all accept it.
  pub all_accepted :
      (net : Network B J) (self : DistributedImpl) (request : String → Request) (rs : Responses)
      → length self.pipelines ≢ 0
      → let all = send_all backend host net request self.pipelines in
        all.1 ≡ ok rs
        → all_succeed rs ≡ true
        → waited_for backend host (request_all backend host 0 net (some self) request)
          ≡ (all.0, ok none)
  unfolding request_all waited_for
  all_accepted net self request rs some_server sent well =
      let no_empty : (length self.pipelines == 0) ≡ false = ground arith in
      rw no_empty (waited_ok (send_all backend host net request self.pipelines) rs sent well)

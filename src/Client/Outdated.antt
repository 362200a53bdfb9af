-- ===== src/Client/Outdated.antt =====
-- src/DistributedPipelineHandle.cpp: an attempt to start an iteration where no provider has the
-- client's hash of the group.
use mochi_colza.Base.{
  ℕ, ◌≡◌, refl, ap, ◌∙◌, Bool, true, false, not, ◌&&◌, ◌||◌, none, some, List, [], ◌∷◌, All, arith,
  ℤ, ◌==◌, nat_eq, inl, inr, Option-cases,
}
use mochi_colza.Base.Map.{lookup, lookup-insert}
use mochi_colza.Result.{RequestResult, Outcome, ok, throw, throw_std, to_int}
use mochi_colza.Backend.{Backend}
use mochi_colza.Provider.State.{Provider}
use mochi_colza.Provider.Pipelines.{Host}
use mochi_colza.Provider.Iterations
use mochi_colza.Provider.Requests
use mochi_colza.Client.Network.{ProviderHandle, answered, Network, call, handle_eq}
use mochi_colza.Client.PipelineHandle.{PipelineHandleImpl}
use mochi_colza.Client.Connect.{DistributedImpl}
use mochi_colza.Client.Distributed.{
  Attempt, says_invalid_hash, collect_one, collect, send_all, abort_all, settle_attempt, attempt,
}
use mochi_colza.Client.Effects.{Responses, start_request}
use mochi_colza.Client.Startable.{answers_first}

-- The provider is there, with another hash of the group.
abbrev pub is_outdated_at : {B J : Type 0} → ℕ → Network B J → PipelineHandleImpl → Bool
is_outdated_at hash net p = elim (lookup p.ph net) [
  | none ↦ false
  | some provider ↦ not (hash == provider.group_hash)
]

-- The same providers in the same states.
abbrev pub SameProviders : {B J : Type 0} → Network B J → Network B J → Type 0
SameProviders a b = (ph : ProviderHandle) → lookup ph a ≡ lookup ph b

abbrev pub is_empty : List PipelineHandleImpl → Bool
is_empty [] = true
is_empty (p ∷ ps) = false

-- A response of a provider with another hash.
abbrev says_outdated : RequestResult ℤ → Bool
says_outdated r = not r.success && says_invalid_hash r

abbrev all_outdated : Responses → Bool
all_outdated [] = true
all_outdated ((p, r) ∷ rs) = says_outdated r && all_outdated rs

abbrev none_sent : Responses → Bool
none_sent [] = true
none_sent (p ∷ ps) = false

collect_outdated :
    (rs : Responses) (a : Attempt)
    → all_outdated rs ≡ true
    → ((collect a rs).is_ok ≡ (a.is_ok && none_sent rs))
      × ((collect a rs).retry ≡ (a.retry || not (none_sent rs)))
      × ((collect a rs).started ≡ a.started)
unfolding collect
collect_outdated [] a h = (ground arith, ground arith, refl)
collect_outdated ((p, r) ∷ rs) a h =
    let (is_ok, retry, started) = collect_outdated rs (collect_one a p r) (ground arith) in
    (grind arith, grind arith, grind arith)

module _ {B J : Type 0} (backend : Backend B) (host : Host B J) (hash i : ℕ) where
  outdated_here :
      (net : Network B J) (p : PipelineHandleImpl)
      → is_outdated_at hash net p ≡ true
      → let first = call backend host net p.ph (Requests.start hash p.name i) in
        ((r : RequestResult ℤ) × (first.1 ≡ answered r) × (says_outdated r ≡ true))
        × SameProviders first.0 net
  unfolding call Iterations.start to_int
  outdated_here net p h = elim (Option-cases (lookup p.ph net)) [
    | inl missing ↦ absurd (ground arith)
    | inr (provider, found) ↦ (
      ((Iterations.start backend provider hash p.name i).1, rw (call, found) refl, ground arith),
      λ ph. grind (
        arith,
        handle_eq.same_iff p.ph ph,
        lookup-insert {K = ProviderHandle} {V = Provider B J},
      ),
    )
  ]

  still_outdated :
      (ps : List PipelineHandleImpl) (a b : Network B J)
      → SameProviders a b
      → All (λ q. is_outdated_at hash b q ≡ true) ps
      → All (λ q. is_outdated_at hash a q ≡ true) ps
  still_outdated [] a b same h = tt
  still_outdated (p ∷ ps) a b same (here, others) =
      (rw (is_outdated_at, same p.ph) here, still_outdated ps a b same others)

  send_all_outdated :
      (ps : List PipelineHandleImpl) (net : Network B J)
      → All (λ q. is_outdated_at hash net q ≡ true) ps
      → let all = send_all backend host net (start_request hash i) ps in
        ((rs : Responses) × (all.1 ≡ ok rs)
          × (all_outdated rs ≡ true)
          × (none_sent rs ≡ is_empty ps))
        × SameProviders all.0 net
  unfolding send_all
  send_all_outdated [] net h = (([], refl, refl, refl), λ ph. refl)
  send_all_outdated (p ∷ ps) net (here, others) =
      let first = call backend host net p.ph (Requests.start hash p.name i) in
      let ((r, answer, outdated), same) = outdated_here net p here in
      let ((rs, sent, all, empty), same') =
        send_all_outdated ps first.0 (still_outdated ps first.0 net same others) in
      let both =
        answers_first p first (λ net. send_all backend host net (start_request hash i) ps) r rs
          answer sent in
      (
        ((p, r) ∷ rs, ap (λ r. r.1) both, ground arith, refl),
        λ ph. ap (λ (r : Network B J × Outcome Responses). lookup ph r.0) both ∙ same' ph ∙ same ph,
      )

settled_outdated :
    {B J : Type 0} (backend : Backend B) (host : Host B J) (r : Network B J × Outcome Responses)
    (i : ℕ) (rs : Responses)
    → r.1 ≡ ok rs
    → all_outdated rs ≡ true
    → none_sent rs ≡ false
    → let settled = settle_attempt backend host r i in
      ((a : Attempt) × (settled.1 ≡ ok a) × (a.is_ok ≡ false) × (a.retry ≡ true))
      × (settled.0 ≡ r.0)
unfolding settle_attempt abort_all
settled_outdated backend host (net, ok all) i rs e h sent =
    let same : all ≡ rs = ground arith in
    let begin : Attempt = record { is_ok = true; retry = false; started = [] } in
    let (is_ok, retry, started) = collect_outdated all begin (ap all_outdated same ∙ h) in
    let fails : (collect begin all).is_ok ≡ false = ground arith in
    ((collect begin all, refl, fails, ground arith), rw (fails, started) refl)
settled_outdated backend host (net, throw x) i rs e h sent = absurd (ground arith)
settled_outdated backend host (net, throw_std what) i rs e h sent = absurd (ground arith)

-- An attempt that no provider accepts asks for another one, and leaves every provider as it was.
pub attempt_outdated :
    {B J : Type 0} (backend : Backend B) (host : Host B J) (net : Network B J)
    (self : DistributedImpl) (i : ℕ)
    → is_empty self.pipelines ≡ false
    → All (λ p. is_outdated_at self.group_hash net p ≡ true) self.pipelines
    → let after = attempt backend host net self i in
      ((a : Attempt) × (after.1 ≡ ok a) × (a.is_ok ≡ false) × (a.retry ≡ true))
      × SameProviders after.0 net
unfolding attempt
attempt_outdated backend host net self i some_server h =
    let ((rs, sent, all, empty), same) =
      send_all_outdated backend host self.group_hash i self.pipelines net h in
    let (asks, stays) = settled_outdated backend host _ i rs sent all (empty ∙ some_server) in
    (asks, λ ph. ap (lookup ph) stays ∙ same ph)

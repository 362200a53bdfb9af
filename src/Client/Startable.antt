-- ===== src/Client/Startable.antt =====
-- src/DistributedPipelineHandle.cpp: an attempt to start an iteration where every provider accepts
-- it.
use mochi_colza.Base.{
  ℕ, ◌≡◌, refl, ap, ◌∙◌, Bool, true, false, not, ◌&&◌, ◌||◌, none, some, List, [], ◌∷◌, All, arith,
  String, ℤ, ◌==◌, leb, nat_eq, string_eq, inl, inr, Option-cases,
}
use mochi_colza.Base.Map.{lookup, lookup-insert}
use mochi_colza.Result.{RequestResult, Outcome, ok, throw, throw_std}
use mochi_colza.Backend.{Backend}
use mochi_colza.Provider.State.{PipelineState, Provider}
use mochi_colza.Provider.Pipelines.{Host}
use mochi_colza.Provider.Iterations
use mochi_colza.Provider.Requests
use mochi_colza.Client.Network.{ProviderHandle, Reply, answered, failed, Network, call, handle_eq}
use mochi_colza.Client.PipelineHandle.{PipelineHandleImpl}
use mochi_colza.Client.Connect.{DistributedImpl}
use mochi_colza.Client.Distributed.{
  Attempt, goes_on, reply_of, collect_one, collect, send_all, settle_attempt, attempt,
}
use mochi_colza.Client.Calling.{same_pipeline}
use mochi_colza.Client.Effects.{Responses, all_succeed, start_request}

-- The pipeline is idle, its iteration number is 0 or below i, and its backend agrees.
abbrev pub is_startable : {B : Type 0} → Backend B → ℕ → PipelineState B → Bool
is_startable backend i s =
    not s.active
    && (s.iteration == 0 || not (leb i s.iteration))
    && (backend.start i s.pipeline).1.success

-- The provider is there, its hash of the group is `hash`, and it has such a pipeline.
abbrev pub is_startable_at :
    {B J : Type 0} → Backend B → ℕ → ℕ → Network B J → PipelineHandleImpl → Bool
is_startable_at backend hash i net p = elim (lookup p.ph net) [
  | none ↦ false
  | some provider ↦ (provider.group_hash == hash) && elim (lookup p.name provider.pipelines) [
    | none ↦ false
    | some s ↦ is_startable backend i s
  ]
]

-- No two of the handles are to the same pipeline.
abbrev pub AreApart : List PipelineHandleImpl → Type 0
AreApart [] = Unit
AreApart (p ∷ ps) = All (λ q. same_pipeline p q ≡ false) ps × AreApart ps

-- A request that is answered, and those after it.
pub answers_others :
    {N : Type 0} (p : PipelineHandleImpl) (r : RequestResult ℤ) (others : N × Outcome Responses)
    (rs : Responses)
    → others.1 ≡ ok rs
    → goes_on others (λ net more. (net, ok ((p, r) ∷ more))) ≡ (others.0, ok ((p, r) ∷ rs))
unfolding goes_on
answers_others p r (net, ok more) rs e = ground arith
answers_others p r (net, throw x) rs e = absurd (ground arith)
answers_others p r (net, throw_std what) rs e = absurd (ground arith)

pub answers_first :
    {N : Type 0} (p : PipelineHandleImpl) (first : N × Reply) (others : N → N × Outcome Responses)
    (r : RequestResult ℤ) (rs : Responses)
    → first.1 ≡ answered r
    → (others first.0).1 ≡ ok rs
    → goes_on (reply_of first) (λ net r. goes_on (others net) λ net more. (net, ok ((p, r) ∷ more)))
      ≡ ((others first.0).0, ok ((p, r) ∷ rs))
unfolding goes_on reply_of
answers_first p (net, answered r') others r rs e sent =
    let same : r' ≡ r = ground arith in rw same (answers_others p r (others net) rs sent)
answers_first p (net, failed what) others r rs e sent = absurd (ground arith)

module _ {B J : Type 0} (backend : Backend B) (host : Host B J) (hash i : ℕ) where
  startable_here :
      (net : Network B J) (p : PipelineHandleImpl)
      → is_startable_at backend hash i net p ≡ true
      → (r : RequestResult ℤ) × ((call backend host net p.ph (Requests.start hash p.name i)).1
          ≡ answered r)
        × (r.success ≡ true)
  unfolding call Iterations.start
  startable_here net p h = elim (Option-cases (lookup p.ph net)) [
    | inl missing ↦ absurd (ground arith)
    | inr (provider, found) ↦
        ((Iterations.start backend provider hash p.name i).1, rw (call, found) refl, grind arith)
  ]

  startable_elsewhere :
      (net : Network B J) (p q : PipelineHandleImpl)
      → same_pipeline p q ≡ false
      → is_startable_at backend hash i
          (call backend host net p.ph (Requests.start hash p.name i)).0
          q
        ≡ is_startable_at backend hash i net q
  unfolding call Iterations.start
  startable_elsewhere net p q h = grind (
    arith,
    handle_eq.same_iff p.ph q.ph,
    string_eq.same_iff p.name q.name,
    lookup-insert {K = ProviderHandle} {V = Provider B J},
    lookup-insert {K = String} {V = PipelineState B},
  )

  others_startable :
      (net : Network B J) (p : PipelineHandleImpl) (ps : List PipelineHandleImpl)
      → All (λ q. same_pipeline p q ≡ false) ps
      → All (λ q. is_startable_at backend hash i net q ≡ true) ps
      → All
          (λ q.
            is_startable_at backend hash i
              (call backend host net p.ph (Requests.start hash p.name i)).0
              q
            ≡ true)
          ps
  others_startable net p [] apart h = tt
  others_startable net p (q ∷ ps) apart h =
      (startable_elsewhere net p q apart.0 ∙ h.0, others_startable net p ps apart.1 h.1)

  send_all_startable :
      (ps : List PipelineHandleImpl) (net : Network B J)
      → AreApart ps
      → All (λ p. is_startable_at backend hash i net p ≡ true) ps
      → (rs : Responses) × ((send_all backend host net (start_request hash i) ps).1 ≡ ok rs)
        × (all_succeed rs ≡ true)
  unfolding send_all reply_of goes_on
  send_all_startable [] net apart h = ([], refl, refl)
  send_all_startable (p ∷ ps) net apart h =
      let first = call backend host net p.ph (Requests.start hash p.name i) in
      let (r, answer, success) = startable_here net p h.0 in
      let (rs, sent, all_well) =
        send_all_startable ps first.0 apart.1 (others_startable net p ps apart.0 h.1) in
      (
        (p, r) ∷ rs,
        ap (λ r. r.1)
            (answers_first p first (λ net. send_all backend host net (start_request hash i) ps) r rs
              answer sent),
        ground arith,
      )

-- Where every request of a row is answered with a success, the attempt is ok and need not be
-- made again.
collect_well :
    (rs : Responses) (a : Attempt)
    → all_succeed rs ≡ true
    → ((collect a rs).is_ok ≡ a.is_ok) × ((collect a rs).retry ≡ a.retry)
unfolding collect
collect_well [] a h = (refl, refl)
collect_well ((p, r) ∷ rs) a h = grind (arith, collect_well rs (collect_one a p r))

pub settled_well :
    {B J : Type 0} (backend : Backend B) (host : Host B J) (r : Network B J × Outcome Responses)
    (i : ℕ) (rs : Responses)
    → r.1 ≡ ok rs
    → all_succeed rs ≡ true
    → (a : Attempt) × ((settle_attempt backend host r i).1 ≡ ok a)
      × (a.is_ok ≡ true)
      × (a.retry ≡ false)
unfolding settle_attempt
settled_well backend host (net, ok all) i rs e h =
    let same : all ≡ rs = ground arith in
    let well =
      collect_well all (record { is_ok = true; retry = false; started = [] })
        (ap all_succeed same ∙ h) in
    (collect (record { is_ok = true; retry = false; started = [] }) all, refl, well.0, well.1)
settled_well backend host (net, throw x) i rs e h = absurd (ground arith)
settled_well backend host (net, throw_std what) i rs e h = absurd (ground arith)

-- An attempt at distinct pipelines that can all be started is ok and need not be made again.
pub attempt_startable :
    {B J : Type 0} (backend : Backend B) (host : Host B J) (net : Network B J)
    (self : DistributedImpl) (i : ℕ)
    → AreApart self.pipelines
    → All (λ p. is_startable_at backend self.group_hash i net p ≡ true) self.pipelines
    → (a : Attempt) × ((attempt backend host net self i).1 ≡ ok a)
      × (a.is_ok ≡ true)
      × (a.retry ≡ false)
unfolding attempt
attempt_startable backend host net self i apart h =
    let (rs, sent, well) =
      send_all_startable backend host self.group_hash i self.pipelines net apart h in
    settled_well backend host _ i rs sent well

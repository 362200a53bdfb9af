-- ===== src/Client/Effects.antt =====
-- src/DistributedPipelineHandle.cpp: what a row of starts and a row of aborts do to the pipelines of
-- the system.
use mochi_colza.Base.{
  ℕ, ◌≡◌, inl, inr, refl, sym, ◌∙◌, subst, Bool, true, false, ◌&&◌, ◌||◌, some, List, [], ◌∷◌, ◌++◌,
  arith, String, ℤ, Bool-cases,
}
use mochi_colza.Result.{RequestResult, Outcome, ok, throw, throw_std}
use mochi_colza.Backend.{Backend}
use mochi_colza.Provider.Pipelines.{Host}
use mochi_colza.Provider.Requests
use mochi_colza.Provider.Requests.{Request}
use mochi_colza.Provider.Phases.{running}
use mochi_colza.Client.Network.{Reply, answered, failed, Network, call}
use mochi_colza.Client.PipelineHandle.{PipelineHandleImpl}
use mochi_colza.Client.Distributed.{
  Attempt, goes_on, reply_of, collect_one, collect, send_all, abort_all,
}
use mochi_colza.Client.Calling.{
  same_pipeline, phase_at, running_at, start_elsewhere, start_here, abort_elsewhere, abort_here,
  abort_stays,
}

abbrev pub listed : PipelineHandleImpl → List PipelineHandleImpl → Bool
listed q [] = false
listed q (p ∷ ps) = same_pipeline p q || listed q ps

abbrev pub Responses : Type 0
Responses = List (PipelineHandleImpl × RequestResult ℤ)

abbrev pub started_in : PipelineHandleImpl → Responses → Bool
started_in q [] = false
started_in q ((p, r) ∷ rs) = (same_pipeline p q && r.success) || started_in q rs

abbrev pub all_succeed : Responses → Bool
all_succeed [] = true
all_succeed ((p, r) ∷ rs) = r.success && all_succeed rs

listed-append :
    (q p : PipelineHandleImpl) (ps : List PipelineHandleImpl)
    → listed q (ps ++ p ∷ []) ≡ (listed q ps || same_pipeline p q)
listed-append q p [] = ground arith
listed-append q p (x ∷ ps) = ground (arith, listed-append q p ps)

-- The pipelines that `started` holds are those that answered with a success.
pub collect_started :
    (q : PipelineHandleImpl) (rs : Responses) (a : Attempt)
    → listed q (collect a rs).started ≡ (listed q a.started || started_in q rs)
unfolding collect
collect_started q [] a = ground arith
collect_started q ((p, r) ∷ rs) a =
    grind (arith, collect_started q rs (collect_one a p r), listed-append q p a.started)

pub collect_ok : (rs : Responses) (a : Attempt) → (collect a rs).is_ok ≡ (a.is_ok && all_succeed rs)
unfolding collect
collect_ok [] a = ground arith
collect_ok ((p, r) ∷ rs) a = grind (arith, collect_ok rs (collect_one a p r))

-- A request that was sent, and those after it.
send_others :
    {N : Type 0} (p : PipelineHandleImpl) (r : RequestResult ℤ) (others : N × Outcome Responses)
    (rs : Responses)
    → let all = goes_on others λ net more. (net, ok ((p, r) ∷ more)) in
      all.1 ≡ ok rs
      → (more : Responses) × (others.1 ≡ ok more) × (rs ≡ (p, r) ∷ more) × (all.0 ≡ others.0)
unfolding goes_on
send_others p r (net, ok more) rs e = (more, refl, ground arith, refl)
send_others p r (net, throw x) rs e = absurd (ground arith)
send_others p r (net, throw_std what) rs e = absurd (ground arith)

send_first :
    {N : Type 0} (p : PipelineHandleImpl) (first : N × Reply) (others : N → N × Outcome Responses)
    (rs : Responses)
    → let all =
        goes_on
          (reply_of first)
          λ net r. goes_on (others net) λ net more. (net, ok ((p, r) ∷ more)) in
      all.1 ≡ ok rs
      → (r : RequestResult ℤ) × (more : Responses) × (first.1 ≡ answered r)
        × ((others first.0).1 ≡ ok more)
        × (rs ≡ (p, r) ∷ more)
        × (all.0 ≡ (others first.0).0)
unfolding goes_on reply_of
send_first p (net, answered r) others rs e =
    let (more, sent, is, same) = send_others p r (others net) rs e in
    (r, more, refl, sent, is, same)
send_first p (net, failed what) others rs e = absurd (ground arith)

-- What starts of pipelines do to the pipeline q.
abbrev Effect : {B J : Type 0} → ℕ → PipelineHandleImpl → Bool → Network B J → Network B J → Type 0
Effect i q started before after =
    (started ≡ true → (phase_at after q ≡ some (running i)) × (running_at before q ≡ false))
    × (started ≡ false → phase_at after q ≡ phase_at before q)

Effect-trans :
    {B J : Type 0} (i : ℕ) (q : PipelineHandleImpl) (first later : Bool) (a b c : Network B J)
    → Effect i q first a b
    → Effect i q later b c
    → Effect i q (first || later) a c
Effect-trans i q true true a b c f g = absurd (ground arith)
Effect-trans i q true false a b c f g = (λ h. ground arith, λ h. ground arith)
Effect-trans i q false true a b c f g = (λ h. ground arith, λ h. ground arith)
Effect-trans i q false false a b c f g = (λ h. ground arith, λ h. ground arith)

abbrev pub start_request : ℕ → ℕ → String → Request
start_request hash i name = Requests.start hash name i

module _ {B J : Type 0} (backend : Backend B) (host : Host B J) (hash i : ℕ) where
  start-Effect :
      (p q : PipelineHandleImpl) (net : Network B J) (r : RequestResult ℤ)
      → let first = call backend host net p.ph (Requests.start hash p.name i) in
        first.1 ≡ answered r → Effect i q (same_pipeline p q && r.success) net first.0
  start-Effect p q net r answer = elim (Bool-cases (same_pipeline p q)) [
    | inl at ↦
        let started = start_here backend host net p q i hash r at answer in
        (λ h. started.0 (ground arith), λ h. started.1 (ground arith))
    | inr other ↦
        (λ h. absurd (ground arith), λ h. start_elsewhere backend host net p q i hash other)
  ]

  -- What a row of starts does to a pipeline: if it is one of those that succeed, it was not running
  -- before and runs the iteration now; otherwise its phase is as before.
  pub send_all-Effect :
      (ps : List PipelineHandleImpl) (net : Network B J) (rs : Responses) (q : PipelineHandleImpl)
      → let all = send_all backend host net (start_request hash i) ps in
        all.1 ≡ ok rs → Effect i q (started_in q rs) net all.0
  unfolding send_all
  send_all-Effect [] net rs q e = (λ h. absurd (ground arith), λ h. refl)
  send_all-Effect (p ∷ ps) net rs q e =
      let first = call backend host net p.ph (Requests.start hash p.name i) in
      let (r, more, answer, sent, is, same) =
        send_first p first (λ net. send_all backend host net (start_request hash i) ps) rs e in
      let now = start-Effect p q net r answer in
      let later = send_all-Effect ps first.0 more q sent in
      subst
        (λ (rs : Responses).
          Effect i q (started_in q rs) net
            (send_all backend host net (start_request hash i) (p ∷ ps)).0)
        (sym is)
        (subst (λ (after : Network B J). Effect i q (started_in q ((p, r) ∷ more)) net after)
          (sym same)
          (Effect-trans i q (same_pipeline p q && r.success) (started_in q more) net first.0 _ now
            later))

  -- What the aborts do to a pipeline: one that is aborted while it runs the iteration does not run any
  -- more, one that does not run stays so, and any other is left alone.
  pub abort_all_effect :
      (started : List PipelineHandleImpl) (net : Network B J) (q : PipelineHandleImpl)
      → let after = abort_all backend host net i started in
        (listed q started ≡ false → phase_at after q ≡ phase_at net q)
        × (running_at net q ≡ false → running_at after q ≡ false)
        × (listed q started ≡ true → phase_at net q ≡ some (running i) → running_at after q ≡ false)
  unfolding abort_all
  abort_all_effect [] net q = (λ h. refl, λ h. h, λ h e. absurd (ground arith))
  abort_all_effect (p ∷ started) net q =
      let first = (call backend host net p.ph (Requests.abort p.name i)).0 in
      let (untouched, stays, aborts) = abort_all_effect started first q in
      elim (Bool-cases (same_pipeline p q)) [
        | inl at ↦ (
          λ h. absurd (ground arith),
          λ h. stays (abort_stays backend host net p q i h),
          λ h e. stays (rw (running_at, abort_here backend host net p q i at e) refl),
        )
        | inr other ↦
            let same = abort_elsewhere backend host net p q i other in
            (
              λ h. untouched (ground arith) ∙ same,
              λ h. stays (abort_stays backend host net p q i h),
              λ h e. aborts (ground arith) (same ∙ e),
            )
      ]

-- A pipeline of a list of which all started has started.
pub all_started :
    {B J : Type 0} (backend : Backend B) (host : Host B J) (request : String → Request)
    (ps : List PipelineHandleImpl) (net : Network B J) (rs : Responses) (q : PipelineHandleImpl)
    → (send_all backend host net request ps).1 ≡ ok rs
    → all_succeed rs ≡ true
    → listed q ps ≡ true
    → started_in q rs ≡ true
unfolding send_all
all_started backend host request [] net rs q e s l = absurd (ground arith)
all_started backend host request (p ∷ ps) net rs q e s l =
    let first = call backend host net p.ph (request p.name) in
    let (r, more, answer, sent, is, same) =
      send_first p first (λ net. send_all backend host net request ps) rs e in
    let later = all_started backend host request ps first.0 more q sent in grind (arith, later)

-- ===== src/Client/Retrying.antt =====
-- src/DistributedPipelineHandle.cpp: an attempt to start an iteration where some of the providers
-- have the client's hash of the group, and some do not.
use mochi_colza.Base.{
  ℕ, ◌^◌, ◌<◌, ◌≤◌, ◌≡◌, ◌⊎◌, refl, sym, ap, subst, ◌∙◌, Bool, true, false, not, ◌&&◌, ◌||◌, none,
  some, List, [], ◌∷◌, All, arith, String, ℤ, nat_eq, string_eq, inl, inr, Bool-cases, Option-cases,
}
use mochi_colza.Base.Map.{lookup, lookup-insert, lookup-insert_self}
use mochi_colza.Result.{RequestResult, Outcome, ok, throw, throw_std, to_int}
use mochi_colza.Backend.{Backend}
use mochi_colza.Provider.State.{PipelineState, Provider, decrement}
use mochi_colza.Provider.Pipelines.{Host}
use mochi_colza.Provider.Iterations
use mochi_colza.Provider.Requests
use mochi_colza.Provider.Requests.{Request}
use mochi_colza.Provider.Frame.{serve-group_hash}
use mochi_colza.Provider.Phases.{idle, running}
use mochi_colza.Client.Network.{ProviderHandle, answered, Network, call, handle_eq}
use mochi_colza.Client.PipelineHandle.{PipelineHandleImpl}
use mochi_colza.Client.Connect.{DistributedImpl}
use mochi_colza.Client.Distributed.{
  Attempt, says_invalid_hash, collect_one, collect, send_all, abort_all, settle_attempt, attempt,
}
use mochi_colza.Client.Calling.{same_pipeline, phase_at, abort_elsewhere, abort_here}
use mochi_colza.Client.Effects.{
  listed, Responses, started_in, collect_started, start_request, send_all-Effect,
}
use mochi_colza.Client.Startable.{answers_first}
use mochi_colza.Client.Outdated.{is_outdated_at}

abbrev pub has_provider : {B J : Type 0} → Network B J → PipelineHandleImpl → Bool
has_provider net p = elim (lookup p.ph net) [ none ↦ false | some provider ↦ true ]

abbrev pub some_outdated : {B J : Type 0} → ℕ → Network B J → List PipelineHandleImpl → Bool
some_outdated hash net [] = false
some_outdated hash net (p ∷ ps) = is_outdated_at hash net p || some_outdated hash net ps

-- The pipeline is idle, and its iteration number is 0 or below i.
abbrev pub IsBelow : {B J : Type 0} → Network B J → PipelineHandleImpl → ℕ → Type 0
IsBelow net q i = (k : ℕ) × (phase_at net q ≡ some (idle k)) × ((k ≡ 0) ⊎ (k < i))

abbrev says_outdated : RequestResult ℤ → Bool
says_outdated r = not r.success && says_invalid_hash r

abbrev one_outdated : Responses → Bool
one_outdated [] = false
one_outdated ((p, r) ∷ rs) = says_outdated r || one_outdated rs

collect_asks :
    (rs : Responses) (a : Attempt)
    → ((a.retry || one_outdated rs) ≡ true → (collect a rs).retry ≡ true)
      × ((not a.is_ok || one_outdated rs) ≡ true → (collect a rs).is_ok ≡ false)
unfolding collect
collect_asks [] a = (λ h. ground arith, λ h. ground arith)
collect_asks ((p, r) ∷ rs) a =
    let (asks, fails) = collect_asks rs (collect_one a p r) in
    (λ h. asks (grind arith), λ h. fails (grind arith))

module _ {B J : Type 0} (backend : Backend B) (host : Host B J) (hash i : ℕ) where
  call_keeps_outdated :
      (net : Network B J) (ph : ProviderHandle) (request : Request) (q : PipelineHandleImpl)
      → let after = (call backend host net ph request).0 in
        (is_outdated_at hash after q ≡ is_outdated_at hash net q)
        × (has_provider after q ≡ has_provider net q)
  unfolding call
  call_keeps_outdated net ph request q = (
    grind (
      arith,
      handle_eq.same_iff ph q.ph,
      lookup-insert {K = ProviderHandle} {V = Provider B J},
      λ (p : Provider B J). serve-group_hash backend host p request,
    ),
    grind
        (arith, handle_eq.same_iff ph q.ph, lookup-insert {K = ProviderHandle} {V = Provider B J}),
  )

  answered_here :
      (net : Network B J) (p : PipelineHandleImpl)
      → has_provider net p ≡ true
      → (r : RequestResult ℤ) × ((call backend host net p.ph (Requests.start hash p.name i)).1
          ≡ answered r)
        × (is_outdated_at hash net p ≡ true → says_outdated r ≡ true)
  unfolding call Iterations.start to_int
  answered_here net p h = elim (Option-cases (lookup p.ph net)) [
    | inl missing ↦ absurd (ground arith)
    | inr (provider, found) ↦ (
      (Iterations.start backend provider hash p.name i).1,
      rw (call, found) refl,
      λ old. ground arith,
    )
  ]

  others_kept :
      (net : Network B J) (ph : ProviderHandle) (request : Request) (ps : List PipelineHandleImpl)
      → let after = (call backend host net ph request).0 in
        (some_outdated hash after ps ≡ some_outdated hash net ps)
        × (All (λ p. has_provider net p ≡ true) ps → All (λ p. has_provider after p ≡ true) ps)
  others_kept net ph request [] = (refl, λ h. tt)
  others_kept net ph request (p ∷ ps) =
      let (outdated, there) = call_keeps_outdated net ph request p in
      let (others, all_there) = others_kept net ph request ps in
      (ground (arith, outdated, others), λ h. (there ∙ h.0, all_there h.1))

  -- Where every provider is there, every request of a row is answered, and a provider with another
  -- hash says so.
  send_all_answered :
      (ps : List PipelineHandleImpl) (net : Network B J)
      → All (λ p. has_provider net p ≡ true) ps
      → (rs : Responses) × ((send_all backend host net (start_request hash i) ps).1 ≡ ok rs)
        × (some_outdated hash net ps ≡ true → one_outdated rs ≡ true)
  unfolding send_all
  send_all_answered [] net h = ([], refl, λ old. absurd (ground arith))
  send_all_answered (p ∷ ps) net h =
      let request = Requests.start hash p.name i in
      let first = call backend host net p.ph request in
      let (r, answer, says) = answered_here net p h.0 in
      let (outdated, there) = others_kept net p.ph request ps in
      let (rs, sent, later) = send_all_answered ps first.0 (there h.1) in
      (
        (p, r) ∷ rs,
        ap (λ r. r.1)
            (answers_first p first (λ net. send_all backend host net (start_request hash i) ps) r rs
              answer sent),
        λ old. ground (arith, says, later, outdated),
      )

module _ {B J : Type 0} (backend : Backend B) (host : Host B J) (i : ℕ) where
  -- An abort of a pipeline that does not run does nothing to its phase.
  abort_idle :
      (net : Network B J) (p q : PipelineHandleImpl) (k : ℕ)
      → same_pipeline p q ≡ true
      → phase_at net q ≡ some (idle k)
      → phase_at (call backend host net p.ph (Requests.abort p.name i)).0 q ≡ some (idle k)
  unfolding call Iterations.abort
  abort_idle net p q k h e = grind (
    arith,
    handle_eq.same_iff p.ph q.ph,
    string_eq.same_iff p.name q.name,
    lookup-insert_self {K = ProviderHandle} {V = Provider B J},
    lookup-insert_self {K = String} {V = PipelineState B},
  )

  -- After the aborts, a pipeline that was idle below i is so still, and so is one that ran i and is
  -- aborted.
  abort_all-IsBelow :
      1 ≤ i
      → i < 2 ^ 64
      → (started : List PipelineHandleImpl) (net : Network B J) (q : PipelineHandleImpl)
      → let after = abort_all backend host net i started in
        (IsBelow net q i → IsBelow after q i)
        × (listed q started ≡ true → phase_at net q ≡ some (running i) → IsBelow after q i)
  unfolding abort_all
  abort_all-IsBelow low high [] net q = (λ h. h, λ l e. absurd (ground arith))
  abort_all-IsBelow low high (p ∷ started) net q =
      let first = (call backend host net p.ph (Requests.abort p.name i)).0 in
      let (stays, aborts) = abort_all-IsBelow low high started first q in
      elim (Bool-cases (same_pipeline p q)) [
        | inl at ↦ (
          λ (k, e, le). stays (k, abort_idle net p q k at e, le),
          λ l e.
              let before : decrement i < i = omega (arith, low, high) in
              stays (decrement i, abort_here backend host net p q i at e, inr before),
        )
        | inr other ↦
            let same = abort_elsewhere backend host net p q i other in
            (λ (k, e, le). stays (k, same ∙ e, le), λ l e. aborts (ground arith) (same ∙ e))
      ]

settled_retries :
    {B J : Type 0} (backend : Backend B) (host : Host B J) (r : Network B J × Outcome Responses)
    (i : ℕ) (rs : Responses)
    → r.1 ≡ ok rs
    → let a = collect (record { is_ok = true; retry = false; started = [] }) rs in
      let settled = settle_attempt backend host r i in
      (settled.1 ≡ ok a) × (a.is_ok ≡ false → settled.0 ≡ abort_all backend host r.0 i a.started)
unfolding settle_attempt
settled_retries backend host (net, ok all) i rs e =
    let same : all ≡ rs = ground arith in rw same (refl, λ bad. rw bad refl)
settled_retries backend host (net, throw x) i rs e = absurd (ground arith)
settled_retries backend host (net, throw_std what) i rs e = absurd (ground arith)

-- An attempt that finds a provider with another hash asks for another one, and a pipeline of the
-- system that was idle below i is so still, whether it was started and aborted or not.
pub attempt_retries :
    {B J : Type 0} (backend : Backend B) (host : Host B J) (net : Network B J)
    (self : DistributedImpl) (i : ℕ)
    → 1 ≤ i
    → i < 2 ^ 64
    → All (λ p. has_provider net p ≡ true) self.pipelines
    → some_outdated self.group_hash net self.pipelines ≡ true
    → let after = attempt backend host net self i in
      ((a : Attempt) × (after.1 ≡ ok a) × (a.retry ≡ true))
      × ((q : PipelineHandleImpl) → IsBelow net q i → IsBelow after.0 q i)
unfolding attempt
attempt_retries {B} {J} backend host net self i low high there old =
    let request = start_request self.group_hash i in
    let row = send_all backend host net request self.pipelines in
    let begin : Attempt = record { is_ok = true; retry = false; started = [] } in
    let (rs, sent, says) =
      send_all_answered backend host self.group_hash i self.pipelines net there in
    let (settled, kept) = settled_retries backend host row i rs sent in
    let (asks, fails) = collect_asks rs begin in
    let bad : (collect begin rs).is_ok ≡ false = fails (says old) in
    (
      (collect begin rs, settled, asks (says old)),
      λ q below.
          let (started, others) =
            send_all-Effect backend host self.group_hash i self.pipelines net rs q sent in
          let (stays, aborts) =
            abort_all-IsBelow backend host i low high (collect begin rs).started row.0 q in
          subst (λ (n : Network B J). IsBelow n q i) (sym (kept bad))
            (elim (Bool-cases (started_in q rs)) [
              | inl new ↦ aborts (collect_started q rs begin ∙ new) (started new).0
              | inr no_ ↦ stays (below.0, others no_ ∙ below.1, below.2)
            ]),
    )

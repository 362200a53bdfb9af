-- ===== src/Client/Rows.antt =====
-- src/DistributedPipelineHandle.cpp: a request to each server in turn, where every one of them
-- accepts it.
use mochi_colza.Base.{
  ℕ, ◌≡◌, refl, sym, ap, subst, ◌∙◌, true, false, Option, none, some, List, [], ◌∷◌, All, arith,
  String, nat_eq, string_eq, inl, inr, Option-cases,
}
use mochi_colza.Base.Map.{lookup, insert, lookup-insert, lookup-insert_self}
use mochi_colza.Result.{Outcome, ok}
use mochi_colza.Backend.{Backend}
use mochi_colza.Provider.State.{Provider}
use mochi_colza.Provider.Pipelines.{Host}
use mochi_colza.Provider.Requests
use mochi_colza.Provider.Requests.{Request, target}
use mochi_colza.Provider.Frame.{serve_elsewhere, serve-group_hash}
use mochi_colza.Provider.Phases.{Phase}
use mochi_colza.Client.Network.{ProviderHandle, Network, call, handle_eq}
use mochi_colza.Client.PipelineHandle.{PipelineHandleImpl}
use mochi_colza.Client.Distributed.{send_all}
use mochi_colza.Client.Calling.{same_pipeline}
use mochi_colza.Client.Effects.{Responses, all_succeed}
use mochi_colza.Client.Startable.{AreApart, answers_first}
use mochi_colza.Client.Serving.{status_of, status_at, AllAt, Accepted}

status_found :
    {B J : Type 0} (net : Network B J) (p : PipelineHandleImpl) (provider : Provider B J)
    → lookup p.ph net ≡ some provider
    → status_at net p ≡ status_of provider p.name
status_found {B} {J} net p provider found =
    ap
      (λ (o : Option (Provider B J)). elim o as (λ x. Option (ℕ × Phase)) [
        | none ↦ none
        | some q ↦ status_of q p.name
      ])
      found

-- What becomes of a pipeline in one phase, of whichever provider, is what becomes of it in the
-- system.
module _ {B J : Type 0} (backend : Backend B) (host : Host B J) (hash : ℕ) (f g : Phase)
    (request : String → Request) where
  abbrev pub Serves : Type 0
  Serves =
      (p : Provider B J) (name : String)
      → status_of p name ≡ some (hash, f)
      → let (after, r) = Requests.serve backend host p (request name) in
        (r.success ≡ true) × (status_of after name ≡ some (hash, g))

  pub Accepted-Serves :
      Serves
      → (net : Network B J) (p : PipelineHandleImpl) → status_at net p ≡ some (hash, f)
      → Accepted backend host net p (request p.name) hash g
  unfolding call
  Accepted-Serves serves net p at = elim (Option-cases (lookup p.ph net)) [
    | inl missing ↦ absurd (ground arith)
    | inr (provider, found) ↦
        let here : status_of provider p.name ≡ some (hash, f) =
          sym (status_found net p provider found) ∙ at in
        let (success, now) = serves provider p.name here in
        let q = (Requests.serve backend host provider (request p.name)).0 in
        (
          (
            (Requests.serve backend host provider (request p.name)).1,
            rw (call, found) refl,
            success,
          ),
          rw (call, found)
              (status_found (insert p.ph q net) p q (lookup-insert_self p.ph q net) ∙ now),
        )
  ]

-- A request does not change the status of a pipeline that it does not name.
pub call_elsewhere :
    {B J : Type 0} (backend : Backend B) (host : Host B J) (net : Network B J)
    (p q : PipelineHandleImpl) (request : Request)
    → target request ≡ p.name
    → same_pipeline p q ≡ false
    → status_at (call backend host net p.ph request).0 q ≡ status_at net q
unfolding call
call_elsewhere {B} {J} backend host net p q request names h = grind (
  arith,
  handle_eq.same_iff p.ph q.ph,
  string_eq.same_iff p.name q.name,
  lookup-insert {K = ProviderHandle} {V = Provider B J},
  λ (provider : Provider B J). serve_elsewhere backend host provider request q.name,
  λ (provider : Provider B J). serve-group_hash backend host provider request,
)

apart_sym : (p q : PipelineHandleImpl) → same_pipeline p q ≡ false → same_pipeline q p ≡ false
apart_sym p q h = grind (
  arith,
  handle_eq.same_iff p.ph q.ph,
  string_eq.same_iff p.name q.name,
  handle_eq.same_iff q.ph p.ph,
  string_eq.same_iff q.name p.name,
)

module _ {B J : Type 0} (backend : Backend B) (host : Host B J) (hash : ℕ) (f g : Phase)
    (request : String → Request) (names : (name : String) → target (request name) ≡ name)
    (serves : Serves backend host hash f g request) where
  others_AllAt :
      (net : Network B J) (p : PipelineHandleImpl) (ps : List PipelineHandleImpl)
      → All (λ q. same_pipeline p q ≡ false) ps
      → AllAt net hash f ps
      → AllAt (call backend host net p.ph (request p.name)).0 hash f ps
  others_AllAt net p [] apart h = tt
  others_AllAt net p (q ∷ ps) apart h = (
    call_elsewhere backend host net p q (request p.name) (names p.name) apart.0 ∙ h.0,
    others_AllAt net p ps apart.1 h.1,
  )

  -- A row of requests that every provider accepts moves every pipeline of the row, and no other.
  pub send_all_serves :
      (ps : List PipelineHandleImpl) (net : Network B J)
      → AreApart ps
      → AllAt net hash f ps
      → let all = send_all backend host net request ps in
        ((rs : Responses) × (all.1 ≡ ok rs) × (all_succeed rs ≡ true))
        × AllAt all.0 hash g ps
        × ((q : PipelineHandleImpl)
            → All (λ x. same_pipeline q x ≡ false) ps
            → status_at all.0 q ≡ status_at net q)
  unfolding send_all
  send_all_serves [] net apart h = (([], refl, refl), tt, λ q other. refl)
  send_all_serves (p ∷ ps) net apart h =
      let first = call backend host net p.ph (request p.name) in
      let ((r, answer, success), now) =
        Accepted-Serves backend host hash f g request serves net p h.0 in
      let ((rs, sent, all_well), later, elsewhere) =
        send_all_serves ps first.0 apart.1 (others_AllAt net p ps apart.0 h.1) in
      let both =
        answers_first p first (λ net. send_all backend host net request ps) r rs answer sent in
      let same = ap (λ (r : Network B J × Outcome Responses). r.0) both in
      (
        ((p, r) ∷ rs, ap (λ r. r.1) both, ground arith),
        (
          ap (λ (n : Network B J). status_at n p) same ∙ elsewhere p apart.0 ∙ now,
          subst (λ (n : Network B J). AllAt n hash g ps) (sym same) later,
        ),
        λ q other.
            ap (λ (n : Network B J). status_at n q) same
            ∙ elsewhere q other.1
            ∙ call_elsewhere backend host net p q (request p.name) (names p.name)
                (apart_sym q p other.0),
      )

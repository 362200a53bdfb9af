-- ===== src/Client/Refreshed.antt =====
-- src/DistributedPipelineHandle.cpp: a start with a view of the group that is no longer the
-- providers'.
use mochi_colza.Base.{
  ◌≤◌, ◌<◌, ◌^◌, ℕ, ◌≡◌, refl, sym, ap, subst, ◌∙◌, true, false, Option, none, some, List, [], ◌∷◌,
  map, All, arith, nat_eq, string_eq, same_self,
}
use mochi_colza.Result.{Outcome, ok, throw, throw_std}
use mochi_colza.Backend.{Backend}
use mochi_colza.Group.{compute_group_hash}
use mochi_colza.Provider.Pipelines.{Host}
use mochi_colza.Provider.Phases.{running}
use mochi_colza.Client.Network.{Network, handle_eq}
use mochi_colza.Client.PipelineHandle.{PipelineHandleImpl}
use mochi_colza.Client.Connect.{
  Client, Broadcast, sent_ok, DistributedImpl, new_impl, pipeline_at, connect,
}
use mochi_colza.Client.Connected.{addresses}
use mochi_colza.Client.Reachable.{IsReachable, connect-IsReachable}
use mochi_colza.Client.Distributed.{Attempt, attempt}
use mochi_colza.Client.Start.{
  Refresh, returns_with_ok, Started, ended, after_sending, round, reconnected, start_loop,
}
use mochi_colza.Client.Calling.{phase_at}
use mochi_colza.Client.AllOrNothing.{attempt_starts_all}
use mochi_colza.Client.Effects.{listed}
use mochi_colza.Client.Startable.{is_startable_at, AreApart, attempt_startable}
use mochi_colza.Client.Retrying.{has_provider, some_outdated, IsBelow, attempt_retries}
use mochi_colza.Client.Outdated.{is_outdated_at, is_empty, SameProviders, attempt_outdated}

widen_listed :
    (p : PipelineHandleImpl) (qs ps : List PipelineHandleImpl)
    → All (λ q. listed q ps ≡ true) qs
    → All (λ q. listed q (p ∷ ps) ≡ true) qs
widen_listed p [] ps h = tt
widen_listed p (q ∷ qs) ps h = (ground (arith, h.0), widen_listed p qs ps h.1)

listed-All : (ps : List PipelineHandleImpl) → All (λ q. listed q ps ≡ true) ps
listed-All [] = tt
listed-All (p ∷ ps) =
    (ground (arith, same_self p.ph, same_self p.name), widen_listed p ps ps (listed-All ps))

module _ {B J : Type 0} where
  -- A round that need not be made again is the last, one that must be is not.
  last_round :
      (self : DistributedImpl) (r : Network B J × Outcome Attempt)
      (again : Network B J → Started B J) (a : Attempt)
      → r.1 ≡ ok a
      → a.is_ok ≡ true
      → a.retry ≡ false
      → round self r again ≡ ended r.0 (sent_ok true ∷ []) self (returns_with_ok true)
  unfolding round
  last_round self (net, ok b) again a e good done =
      let flag : b.is_ok ≡ true = ground arith in
      let ends : b.retry ≡ false = ground arith in rw (ends, flag) refl
  last_round self (net, throw x) again a e good done = absurd (ground arith)
  last_round self (net, throw_std what) again a e good done = absurd (ground arith)

  next_round :
      (self : DistributedImpl) (r : Network B J × Outcome Attempt)
      (again : Network B J → Started B J) (a : Attempt)
      → r.1 ≡ ok a
      → a.retry ≡ true
      → round self r again ≡ after_sending (sent_ok a.is_ok ∷ []) (again r.0)
  unfolding round
  next_round self (net, ok b) again a e asks =
      let same : b ≡ a = ground arith in
      let again' : b.retry ≡ true = ground arith in
      rw again' (ap (λ (c : Attempt). after_sending (sent_ok c.is_ok ∷ []) (again net)) same)
  next_round self (net, throw x) again a e asks = absurd (ground arith)
  next_round self (net, throw_std what) again a e asks = absurd (ground arith)

  reconnected_ok :
      (self : DistributedImpl) (r : Network B J × List Broadcast × Option (Outcome DistributedImpl))
      (rest : Network B J → DistributedImpl → Started B J) (impl : DistributedImpl)
      → r.2 ≡ some (ok impl)
      → reconnected self r rest ≡ after_sending r.1 (rest r.0 impl)
  unfolding reconnected
  reconnected_ok self (net, sent, some (ok b)) rest impl e =
      let same : b ≡ impl = ground arith in rw same refl
  reconnected_ok self (net, sent, some (throw x)) rest impl e = absurd (ground arith)
  reconnected_ok self (net, sent, some (throw_std what)) rest impl e = absurd (ground arith)
  reconnected_ok self (net, sent, none) rest impl e = absurd (ground arith)

-- `start` returned, its local variable `ok` being true, and the pipelines run the iteration.
abbrev pub Succeeds : {B J : Type 0} → Started B J → ℕ → List PipelineHandleImpl → Type 0
Succeeds s i pipelines =
    (s.ending ≡ returns_with_ok true) × All (λ q. phase_at s.network q ≡ some (running i)) pipelines

module _ {B J : Type 0} (backend : Backend B) (host : Host B J) (client : Client) where
  started-All :
      (net : Network B J) (self : DistributedImpl) (i : ℕ) (a : Attempt)
      (qs : List PipelineHandleImpl)
      → (attempt backend host net self i).1 ≡ ok a
      → a.is_ok ≡ true
      → All (λ q. listed q self.pipelines ≡ true) qs
      → All (λ q. phase_at (attempt backend host net self i).0 q ≡ some (running i)) qs
  started-All net self i a [] e good h = tt
  started-All net self i a (q ∷ qs) e good h = (
    attempt_starts_all backend host net self i a q e good h.0,
    started-All net self i a qs e good h.1,
  )

  pub one_round :
      (refreshes : List (Refresh B J)) (net : Network B J) (self : DistributedImpl) (i : ℕ)
      (a : Attempt)
      → let after = attempt backend host net self i in
        after.1 ≡ ok a
        → a.is_ok ≡ true
        → a.retry ≡ false
        → start_loop backend host client refreshes net self i
          ≡ ended after.0 (sent_ok true ∷ []) self (returns_with_ok true)
  unfolding start_loop
  one_round [] net self i a e good done = last_round self _ _ a e good done
  one_round (refresh ∷ more) net self i a e good done = last_round self _ _ a e good done

  -- A start of distinct pipelines that can all be started takes one round.
  pub start_at_once :
      (refreshes : List (Refresh B J)) (net : Network B J) (self : DistributedImpl) (i : ℕ)
      → AreApart self.pipelines
      → All (λ p. is_startable_at backend self.group_hash i net p ≡ true) self.pipelines
      → Succeeds (start_loop backend host client refreshes net self i) i self.pipelines
  start_at_once refreshes net self i apart h =
      let (a, is_a, good, done) = attempt_startable backend host net self i apart h in
      let runs = started-All net self i a self.pipelines is_a good (listed-All self.pipelines) in
      subst (λ (s : Started B J). Succeeds s i self.pipelines)
        (sym (one_round refreshes net self i a is_a good done)) (refl, runs)

  -- The handles that a refreshed view gives.
  abbrev pub refreshed : Refresh B J → DistributedImpl → List PipelineHandleImpl
  refreshed refresh self =
      map (pipeline_at client self.provider_id self.name) (addresses refresh.view.members)

  -- A view that SSG gives, of members that can be reached and are distinct.
  abbrev pub IsGood : Refresh B J → DistributedImpl → Type 0
  IsGood refresh self =
      (refresh.view.loads ≡ true)
      × (refresh.view.observes ≡ true)
      × (refresh.view.has_size ≡ true)
      × All (IsReachable client) refresh.view.members
      × AreApart (refreshed refresh self)

  -- The members of the view have its hash and can start the iteration.
  abbrev pub AreStartable : Refresh B J → Network B J → DistributedImpl → ℕ → Type 0
  AreStartable refresh net self i =
      All
        (λ p.
          is_startable_at backend (compute_group_hash (map (λ m. m.id) refresh.view.members)) i net
            p
          ≡ true)
        (refreshed refresh self)

  -- A round that must be made again, and a second one that succeeds.
  second_round :
      (refresh : Refresh B J) (more : List (Refresh B J)) (net : Network B J)
      (self : DistributedImpl) (i : ℕ) (a : Attempt)
      → let first = attempt backend host net self i in
        first.1 ≡ ok a
        → a.retry ≡ true
        → IsGood refresh self
        → AreStartable refresh (refresh.environment first.0) self i
        → Succeeds
            (start_loop backend host client (refresh ∷ more) net self i)
            i
            (refreshed refresh self)
  unfolding start_loop new_impl
  second_round refresh more net self i a is_a asks (file, observed, sized, reachable, apart) ready =
      let first = attempt backend host net self i in
      let now = refresh.environment first.0 in
      let connected =
        connect backend host client now refresh.view self.ssg_group_file self.provider_id self.name
          false in
      let (still, made) =
        connect-IsReachable backend host client self.provider_id self.name now refresh.view
          self.ssg_group_file file observed sized reachable in
      let impl =
        new_impl self.name (some (map (λ m. m.id) refresh.view.members)) self.ssg_group_file
          self.provider_id (refreshed refresh self) in
      let tail : Succeeds (start_loop backend host client more connected.0 impl i) i
          impl.pipelines =
        rw still (start_at_once more now impl i apart ready) in
      let split =
        next_round self first _ a is_a asks
        ∙ ap (after_sending (sent_ok a.is_ok ∷ [])) (reconnected_ok self connected _ impl made) in
      subst (λ (s : Started B J). Succeeds s i (refreshed refresh self)) (sym split) tail

  -- Where a handle has pipelines, none of whose providers has the handle's hash of the group, and SSG
  -- then gives a view whose members can be reached, are distinct, have the hash of that view and can
  -- start the iteration, start returns, its local variable `ok` being true, and the pipeline runs the
  -- iteration at every member of the view.
  pub start_after_refresh :
      (refresh : Refresh B J) (more : List (Refresh B J)) (net : Network B J)
      (self : DistributedImpl) (i : ℕ)
      → is_empty self.pipelines ≡ false
      → All (λ p. is_outdated_at self.group_hash net p ≡ true) self.pipelines
      → IsGood refresh self
      → ((now : Network B J)
          → SameProviders now net
          → AreStartable refresh (refresh.environment now) self i)
      → Succeeds
          (start_loop backend host client (refresh ∷ more) net self i)
          i
          (refreshed refresh self)
  start_after_refresh refresh more net self i some_server old good ready =
      let ((a, is_a, _, asks), same) = attempt_outdated backend host net self i some_server old in
      second_round refresh more net self i a is_a asks good (ready _ same)

  -- Where the providers of the handle are there and one of them has another hash of the group than
  -- the handle, whether or not others start the iteration, which is not 0, and are then aborted,
  -- and SSG gives a view whose members can be reached, are distinct and, from any state in which
  -- every pipeline that was idle below the iteration is so still, have the hash of that view and
  -- can start the iteration after the refresh, start returns, its local variable `ok` being true, and
  -- the pipeline runs the iteration at every member of the view.
  pub start_after_retry :
      (refresh : Refresh B J) (more : List (Refresh B J)) (net : Network B J)
      (self : DistributedImpl) (i : ℕ)
      → 1 ≤ i
      → i < 2 ^ 64
      → All (λ p. has_provider net p ≡ true) self.pipelines
      → some_outdated self.group_hash net self.pipelines ≡ true
      → IsGood refresh self
      → ((now : Network B J)
          → ((q : PipelineHandleImpl) → IsBelow net q i → IsBelow now q i)
          → AreStartable refresh (refresh.environment now) self i)
      → Succeeds
          (start_loop backend host client (refresh ∷ more) net self i)
          i
          (refreshed refresh self)
  start_after_retry refresh more net self i low high there old good ready =
      let ((a, is_a, asks), kept) = attempt_retries backend host net self i low high there old in
      second_round refresh more net self i a is_a asks good (ready _ kept)

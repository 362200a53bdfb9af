-- ===== src/Client/Together.antt =====
-- src/DistributedPipelineHandle.cpp: the ranks of the clients go through `start` together.
use mochi_colza.Base.{
  ℕ, ◌≡◌, ◌⊎◌, inl, inr, Bool-cases, refl, sym, ap, subst, ◌∙◌, Bool, true, false, Option, none,
  some, List, [], ◌∷◌, ◌++◌, map, arith, All, length, ℤ,
}
use mochi_colza.Result.{RequestResult, Outcome, ok, throw, throw_std}
use mochi_colza.Backend.{Backend}
use mochi_colza.Provider.Pipelines.{Host}
use mochi_colza.Client.Addresses.{Address, Fits, slots, unpack-slots}
use mochi_colza.Client.Network.{Network}
use mochi_colza.Client.PipelineHandle.{PipelineHandleImpl}
use mochi_colza.Client.Connect.{
  Client, Broadcast, sent_ok, sent_size, sent_addresses, DistributedImpl, new_impl, pipeline_at,
  connect,
}
use mochi_colza.Client.Following.{followed, blocked, make_unchecked}
use mochi_colza.Client.Connected.{addresses, connected_ok, connected_keeps, make_unchecked-All}
use mochi_colza.Client.Distributed.{Attempt, collect_one, collect, settle_attempt, attempt}
use mochi_colza.Client.Start.{
  Refresh, returns_with_ok, Started, ended, after_sending, round, reconnected, start_loop,
  with_made, follow_start,
}

-- A rank does not go on if it must retry.
collect_retry :
    (responses : List (PipelineHandleImpl × RequestResult ℤ)) (a : Attempt)
    → (a.retry ≡ true → a.is_ok ≡ false)
    → (collect a responses).retry ≡ true
    → (collect a responses).is_ok ≡ false
unfolding collect
collect_retry [] a h e = h e
collect_retry ((p, result) ∷ rest) a h e =
    collect_retry rest (collect_one a p result) (λ r. ground (arith, h)) e

attempt_retry :
    {B J : Type 0} (backend : Backend B) (host : Host B J)
    (r : Network B J × Outcome (List (PipelineHandleImpl × RequestResult ℤ))) (iteration : ℕ)
    (a : Attempt)
    → (settle_attempt backend host r iteration).1 ≡ ok a
    → a.retry ≡ true
    → a.is_ok ≡ false
unfolding settle_attempt
attempt_retry backend host (net, ok responses) iteration a e h = ground (
  arith,
  collect_retry responses (record { is_ok = true; retry = false; started = [] })
      (λ r. ground arith),
)
attempt_retry backend host (net, throw x) iteration a e h = absurd (ground arith)
attempt_retry backend host (net, throw_std what) iteration a e h = absurd (ground arith)

module _ {B J : Type 0} where
  -- A round that returns is the last, or another one returns.
  round_cases :
      (self : DistributedImpl) (r : Network B J × Outcome Attempt)
      (again : Network B J → Started B J) (b : Bool)
      → (round self r again).ending ≡ returns_with_ok b
      → (round self r again ≡ ended r.0 (sent_ok b ∷ []) self (returns_with_ok b))
        ⊎ ((a : Attempt) × (r.1 ≡ ok a)
            × (a.retry ≡ true)
            × (round self r again ≡ after_sending (sent_ok a.is_ok ∷ []) (again r.0))
            × ((again r.0).ending ≡ returns_with_ok b))
  unfolding round
  round_cases self (net, ok a) again b e = elim (Bool-cases a.retry) [
    | inl r ↦ inr (a, refl, r, rw r refl, ground arith)
    | inr r ↦ let flag : a.is_ok ≡ b = ground arith in inl (rw (r, flag) refl)
  ]
  round_cases self (net, throw x) again b e = absurd (ground arith)
  round_cases self (net, throw_std what) again b e = absurd (ground arith)

  reconnected_cases :
      (self : DistributedImpl) (r : Network B J × List Broadcast × Option (Outcome DistributedImpl))
      (rest : Network B J → DistributedImpl → Started B J) (b : Bool)
      → (reconnected self r rest).ending ≡ returns_with_ok b
      → (impl : DistributedImpl) × (r.2 ≡ some (ok impl))
        × (reconnected self r rest ≡ after_sending r.1 (rest r.0 impl))
        × ((rest r.0 impl).ending ≡ returns_with_ok b)
  unfolding reconnected
  reconnected_cases self (net, sent, some (ok impl)) rest b e = (impl, refl, refl, e)
  reconnected_cases self (net, sent, some (throw x)) rest b e = absurd (ground arith)
  reconnected_cases self (net, sent, some (throw_std what)) rest b e = absurd (ground arith)
  reconnected_cases self (net, sent, none) rest b e = absurd (ground arith)

module _ (client other : Client) where
  -- Two ranks have handles to the same pipelines: of the same name, at the same addresses in the same
  -- order.
  pub record Peers (self self' : DistributedImpl) : Type 0 where
    pub servers : List Address
    pub same_name : self'.name ≡ self.name
    pub same_id : self'.provider_id ≡ self.provider_id
    pub here : self.pipelines ≡ map (pipeline_at client self.provider_id self.name) servers
    pub there : self'.pipelines ≡ map (pipeline_at other self.provider_id self.name) servers

  -- What becomes of another rank that reads the broadcasts, `b` being the value of `ok` when
  -- rank 0 returns.
  abbrev pub Joined : Bool → List Broadcast → DistributedImpl → DistributedImpl → Type 0
  Joined true sent self self' =
      (final : DistributedImpl) × (follow_start other self' sent ≡ followed final [])
      × Peers self final
  Joined false sent self self' = follow_start other self' sent ≡ blocked

  -- The addresses of a view fit in their slots and can be looked up.
  abbrev pub IsUsable : {B J : Type 0} → Refresh B J → Type 0
  IsUsable refresh =
      All Fits (addresses refresh.view.members)
      × All (λ a. other.lookup_finds a ≡ true) (addresses refresh.view.members)

  last_round :
      (b : Bool) (self self' : DistributedImpl)
      → Peers self self'
      → Joined b (sent_ok b ∷ []) self self'
  unfolding follow_start
  last_round true self self' peers = (self', refl, peers)
  last_round false self self' peers = refl

  follow_retry :
      (self' : DistributedImpl) (packed : List Address) (rest : List Broadcast)
      → All Fits packed
      → All (λ a. other.lookup_finds a ≡ true) packed
      → follow_start other self'
          (sent_ok false ∷ sent_size (length packed) ∷ sent_addresses (slots packed) ∷ rest)
        ≡ follow_start other
            (new_impl self'.name none self'.ssg_group_file self'.provider_id
              (map (pipeline_at other self'.provider_id self'.name) packed))
            rest
  unfolding follow_start
  follow_retry self' packed rest fits found =
      let id = self'.provider_id in
      let name = self'.name in
      ap
        (λ (made : Outcome (List PipelineHandleImpl)). with_made made λ pipelines.
          follow_start other (new_impl name none self'.ssg_group_file id pipelines) rest)
        (ap (make_unchecked other id name) (unpack-slots [] 0 packed refl fits)
          ∙ make_unchecked-All other id name packed found)

  Joined-later :
      (b : Bool) (sent rest : List Broadcast) (self self' next : DistributedImpl)
      → follow_start other self' sent ≡ follow_start other next rest
      → Joined b rest self next
      → Joined b sent self self'
  Joined-later true sent rest self self' next e (final, f, peers) = (final, e ∙ f, peers)
  Joined-later false sent rest self self' next e f = e ∙ f

  -- The handles that a round makes on two ranks.
  new-Peers :
      (self self' impl : DistributedImpl) (packed : List Address)
      → Peers self self'
      → (impl.name ≡ self.name) × (impl.provider_id ≡ self.provider_id)
      → impl.pipelines ≡ map (pipeline_at client self.provider_id self.name) packed
      → Peers impl (
          new_impl self'.name none self'.ssg_group_file self'.provider_id
            (map (pipeline_at other self'.provider_id self'.name) packed))
  unfolding new_impl
  new-Peers self self' impl packed peers (name_is, id_is) pipelines_are = record {
    servers = packed;
    same_name = peers.same_name ∙ sym name_is;
    same_id = peers.same_id ∙ sym id_is;
    here = rw (name_is, id_is) pipelines_are;
    there = rw (name_is, id_is, peers.same_name, peers.same_id) refl;
  }

  -- A round that retries, before rounds that return.
  Joined-round :
      {B J : Type 0} (b is_ok : Bool) (sent : List Broadcast) (s : Started B J)
      (self' : DistributedImpl) (packed : List Address)
      → is_ok ≡ false
      → sent ≡ sent_size (length packed) ∷ sent_addresses (slots packed) ∷ []
      → All Fits packed
      → All (λ a. other.lookup_finds a ≡ true) packed
      → Joined b s.sent s.self (
          new_impl self'.name none self'.ssg_group_file self'.provider_id
            (map (pipeline_at other self'.provider_id self'.name) packed))
      → Joined b (sent_ok is_ok ∷ (sent ++ s.sent)) s.self self'
  Joined-round b is_ok sent s self' packed flag sent_is fits found later =
      Joined-later b (sent_ok is_ok ∷ (sent ++ s.sent)) s.sent s.self self' _
        (rw (flag, sent_is) (follow_retry self' packed s.sent fits found)) later

  module _ {B J : Type 0} (backend : Backend B) (host : Host B J) where
    -- Where rank 0 returns from `start`, however many rounds it takes, every other rank that had the
    -- same pipelines before reads the same broadcasts: if `ok` was true in the last round, it returns
    -- too, has read all of them, and has the same pipelines as rank 0; if `ok` was false, it waits for
    -- ever for the group size, which rank 0 does not send.
    pub start_together :
        (refreshes : List (Refresh B J)) (net : Network B J) (self self' : DistributedImpl)
        (iteration : ℕ) (b : Bool)
        → Peers self self'
        → All IsUsable refreshes
        → let s = start_loop backend host client refreshes net self iteration in
          s.ending ≡ returns_with_ok b → Joined b s.sent s.self self'
    unfolding start_loop attempt
    start_together [] net self self' iteration b peers usable e =
        elim (round_cases self (attempt backend host net self iteration) _ b e) [
          | inl last ↦
              subst (λ (s : Started B J). Joined b s.sent s.self self') (sym last)
                (last_round b self self' peers)
          | inr (a, _, _, _, never) ↦ absurd (ground arith)
        ]
    start_together (refresh ∷ more) net self self' iteration b peers usable e =
        elim (round_cases self (attempt backend host net self iteration) _ b e) [
          | inl last ↦
              subst (λ (s : Started B J). Joined b s.sent s.self self') (sym last)
                (last_round b self self' peers)
          | inr (a, is_a, again, split, later) ↦
              let net' = refresh.environment (attempt backend host net self iteration).0 in
              let connected =
                connect backend host client net' refresh.view self.ssg_group_file self.provider_id
                  self.name false in
              let (impl, made, joined, done) = reconnected_cases self connected _ b later in
              let (pipelines_are, sent_is) =
                connected_ok backend host client self.provider_id self.name false net' refresh.view
                  self.ssg_group_file impl made usable.0.0 in
              let kept =
                connected_keeps backend host client self.provider_id self.name false net'
                  refresh.view self.ssg_group_file impl made in
              let packed = addresses refresh.view.members in
              let tail =
                start_together more connected.0 impl _ iteration b
                  (new-Peers self self' impl packed peers kept pipelines_are) usable.1 done in
              let flag = attempt_retry backend host _ iteration a is_a again in
              subst (λ (s : Started B J). Joined b s.sent s.self self')
                (sym (split ∙ ap (after_sending (sent_ok a.is_ok ∷ [])) joined))
                (Joined-round b a.is_ok connected.1
                  (start_loop backend host client more connected.0 impl iteration) self' packed flag
                  sent_is usable.0.0 usable.0.1 tail)
        ]

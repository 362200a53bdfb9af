-- ===== src/Admin/Ready.antt =====
-- src/Admin.cpp: a pipeline that createDistributedPipeline has made is ready for the clients.
use mochi_colza.Base.{
  ℕ, ◌≡◌, refl, ap, subst, ◌∙◌, String, Option, none, some, List, [], ◌∷◌, arith, All, inl, inr,
  nat_eq, string_eq, map,
}
use mochi_colza.Base.Map.{lookup, lookup-insert}
use mochi_colza.Backend.{Backend}
use mochi_colza.Provider.State.{Provider}
use mochi_colza.Provider.Pipelines.{Host}
use mochi_colza.Provider.Frame.{serve-group_hash}
use mochi_colza.Provider.Phases.{idle}
use mochi_colza.Provider.Requests
use mochi_colza.Client.Addresses.{Address}
use mochi_colza.Client.Network.{ProviderHandle, Network, handle_eq}
use mochi_colza.Client.Connect.{Client, Member, View, pipeline_at}
use mochi_colza.Client.Connected.{addresses}
use mochi_colza.Client.Reachable.{IsReachable}
use mochi_colza.Client.Serving.{status_at, AllAt}
use mochi_colza.Admin.Operations.{
  Engine, Creating, expect_success, text_of, server_of, Ended, finished, run_threads,
  create_pipeline, create_distributed_pipeline,
}
use mochi_colza.Admin.Everywhere.{
  HasFresh, outcome_cases, joined_ok, joined_failed, thread, create_distributed_pipeline-HasFresh,
}

-- The hash of the group of a provider.
abbrev pub hash_at : {B J : Type 0} → Network B J → ProviderHandle → Option ℕ
hash_at net ph = elim (lookup ph net) [ none ↦ none | some p ↦ some p.group_hash ]

module _ {B J : Type 0} (backend : Backend B) (host : Host B J) (engine : Engine) (provider_id : ℕ)
    (c : Creating) where
  thread_keeps_hash :
      (net : Network B J) (member : Member) (ph : ProviderHandle)
      → hash_at (thread backend host engine provider_id c net member).0 ph ≡ hash_at net ph
  unfolding create_pipeline expect_success
  thread_keeps_hash net member ph = grind (
    arith,
    handle_eq.same_iff (server_of engine provider_id member) ph,
    lookup-insert {K = ProviderHandle} {V = Provider B J},
    λ (p : Provider B J).
        serve-group_hash backend host p (Requests.create c.token c.name c.type c.config c.library),
  )

  threads_keep_hash :
      (members : List Member) (net : Network B J) (ph : ProviderHandle)
      → hash_at (run_threads (thread backend host engine provider_id c) net members).0 ph
        ≡ hash_at net ph
  unfolding run_threads
  threads_keep_hash [] net ph = refl
  threads_keep_hash (member ∷ members) net ph =
      let first = thread backend host engine provider_id c net member in
      let others =
        λ (net : Network B J). run_threads (thread backend host engine provider_id c) net members in
      let here = thread_keeps_hash net member ph in
      elim (outcome_cases first.1) [
        | inl done ↦
            ap (λ (r : Network B J × Ended). hash_at r.0 ph) (joined_ok others first done)
            ∙ threads_keep_hash members first.0 ph
            ∙ here
        | inr fails ↦
            ap (λ (r : Network B J × Ended). hash_at r.0 ph) (joined_failed others first fails)
            ∙ here
      ]

  create_keeps_hash :
      (net : Network B J) (view : View) (ssg_file : String) (ph : ProviderHandle)
      → hash_at
          (create_distributed_pipeline backend host engine net view ssg_file provider_id c).0
          ph
        ≡ hash_at net ph
  unfolding create_distributed_pipeline
  create_keeps_hash net view ssg_file ph = ground (arith, threads_keep_hash view.members net ph)

kept_hashes :
    {B J : Type 0} (backend : Backend B) (host : Host B J) (engine : Engine) (provider_id : ℕ)
    (c : Creating) (net : Network B J) (view : View) (ssg_file : String) (hash : ℕ)
    (members : List Member)
    → All (λ m. hash_at net (server_of engine provider_id m) ≡ some hash) members
    → All
        (λ m.
          hash_at
            (create_distributed_pipeline backend host engine net view ssg_file provider_id c).0
            (server_of engine provider_id m)
          ≡ some hash)
        members
kept_hashes backend host engine provider_id c net view ssg_file hash [] h = tt
kept_hashes backend host engine provider_id c net view ssg_file hash (m ∷ members) h = (
  create_keeps_hash backend host engine provider_id c net view ssg_file
        (server_of engine provider_id m)
      ∙ h.0,
  kept_hashes backend host engine provider_id c net view ssg_file hash members h.1,
)

reached_text :
    (client : Client) (engine : Engine) (m : Member)
    → IsReachable client m
    → text_of engine m ≡ m.address
reached_text client engine m (id, addr, fits, found) = ground (arith, id, addr)

module _ {B J : Type 0} (client : Client) (engine : Engine) (provider_id hash : ℕ)
    (name : String) where
  status_of_phase :
      (net : Network B J) (ph : ProviderHandle)
      → hash_at net ph ≡ some hash
      → HasFresh net ph name
      → status_at net (record { name = name; self_addr = client.self_addr; ph = ph })
        ≡ some (hash, idle 0)
  status_of_phase net ph h fresh = grind arith

  ready_at :
      (net : Network B J) (m : Member)
      → IsReachable client m
      → hash_at net (server_of engine provider_id m) ≡ some hash
      → HasFresh net (server_of engine provider_id m) name
      → status_at net (pipeline_at client provider_id name m.address) ≡ some (hash, idle 0)
  ready_at net m reachable h fresh =
      subst
        (λ (a : Address).
          status_at net (record {
            name = name;
            self_addr = client.self_addr;
            ph = record { address = a; provider_id = provider_id };
          })
          ≡ some (hash, idle 0))
        (reached_text client engine m reachable)
        (status_of_phase net (server_of engine provider_id m) h fresh)

  members-AllAt :
      (net : Network B J) (members : List Member)
      → All (IsReachable client) members
      → All (λ m. hash_at net (server_of engine provider_id m) ≡ some hash) members
      → All (λ m. HasFresh net (server_of engine provider_id m) name) members
      → AllAt net hash (idle 0) (map (pipeline_at client provider_id name) (addresses members))
  members-AllAt net [] reachable h fresh = tt
  members-AllAt net (m ∷ members) reachable h fresh =
      (ready_at net m reachable.0 h.0 fresh.0, members-AllAt net members reachable.1 h.1 fresh.1)

-- After createDistributedPipeline, the pipeline is idle and new at every member, whose providers have
-- the hash that they had.
pub create_distributed_pipeline-AllAt :
    {B J : Type 0} (backend : Backend B) (host : Host B J) (client : Client) (engine : Engine)
    (provider_id hash : ℕ) (c : Creating) (net : Network B J) (view : View) (ssg_file : String)
    → All (IsReachable client) view.members
    → All (λ m. hash_at net (server_of engine provider_id m) ≡ some hash) view.members
    → let (after, ended) =
        create_distributed_pipeline backend host engine net view ssg_file provider_id c in
      ended ≡ finished
      → AllAt after hash
          (idle 0)
          (map (pipeline_at client provider_id c.name) (addresses view.members))
create_distributed_pipeline-AllAt backend host client engine provider_id hash c net view ssg_file
      reachable h e =
    let after =
      (create_distributed_pipeline backend host engine net view ssg_file provider_id c).0 in
    members-AllAt client engine provider_id hash c.name after view.members reachable
      (kept_hashes backend host engine provider_id c net view ssg_file hash view.members h)
      (create_distributed_pipeline-HasFresh backend host engine provider_id c net view ssg_file e)

-- ===== src/Admin/EndToEnd.antt =====
-- src/Admin.cpp, src/Client.cpp and examples/distributed/client.cpp: an administrator makes a
-- pipeline, and a client runs it.
use mochi_colza.Base.{
  ℕ, ◌+◌, ◌≡◌, ◌≢◌, refl, ap, sym, subst, ◌∙◌, String, true, Option, none, some, List, [], ◌∷◌,
  arith, All, inl, nat_eq, string_eq, map, length, suc,
}
use mochi_colza.Group.{compute_group_hash}
use mochi_colza.Result.{Outcome, ok, throw, throw_std}
use mochi_colza.Backend.{Backend, Bulk}
use mochi_colza.Provider.Pipelines.{Host}
use mochi_colza.Provider.Phases.{Phase, idle}
use mochi_colza.Client.Network.{Network, handle_eq}
use mochi_colza.Client.PipelineHandle.{PipelineHandleImpl}
use mochi_colza.Client.Connect.{
  Client, Member, View, Broadcast, DistributedImpl, new_impl, pipeline_at, connect,
}
use mochi_colza.Client.Connected.{addresses}
use mochi_colza.Client.Reachable.{IsReachable}
use mochi_colza.Client.Outdated.{SameProviders}
use mochi_colza.Client.Start.{Refresh}
use mochi_colza.Client.Startable.{AreApart}
use mochi_colza.Client.Checked.{exists_at, connect_checked}
use mochi_colza.Client.Serving.{status_at, AllAt, IsWilling}
use mochi_colza.Client.Program.{Options, completes, run_iterations, after_connect, run_client}
use mochi_colza.Client.Iterating.{run_iterations_completes}
use mochi_colza.Admin.Operations.{
  Engine, Creating, server_of, finished, create_distributed_pipeline,
}
use mochi_colza.Admin.Ready.{hash_at, create_distributed_pipeline-AllAt}

exist :
    {B J : Type 0} (net : Network B J) (hash : ℕ) (f : Phase) (ps : List PipelineHandleImpl)
    → AllAt net hash f ps
    → All (λ p. exists_at net p ≡ true) ps
exist net hash f [] h = tt
exist net hash f (p ∷ ps) h = (grind (arith, h.0), exist net hash f ps h.1)

same-AllAt :
    {B J : Type 0} (a b : Network B J) (hash : ℕ) (f : Phase) (ps : List PipelineHandleImpl)
    → SameProviders a b
    → AllAt b hash f ps
    → AllAt a hash f ps
same-AllAt a b hash f [] same h = tt
same-AllAt a b hash f (p ∷ ps) same h =
    (rw (status_at, same p.ph) h.0, same-AllAt a b hash f ps same h.1)

length-handles :
    (client : Client) (id : ℕ) (name : String) (members : List Member)
    → length (map (pipeline_at client id name) (addresses members)) ≡ length members
length-handles client id name [] = refl
length-handles client id name (m ∷ members) = ap suc (length-handles client id name members)

module _ {B J : Type 0} (backend : Backend B) (host : Host B J) (client : Client)
    (expose : ℕ → ℕ → Bulk) (options : Options) (memory : ℕ)
    (refreshes : ℕ → List (Refresh B J)) where
  connected_runs :
      (n : ℕ) (r : Network B J × List Broadcast × Option (Outcome DistributedImpl))
      (impl : DistributedImpl)
      → r.2 ≡ some (ok impl)
      → after_connect backend host client expose options memory refreshes n r
        ≡ run_iterations backend host client expose options memory refreshes n r.0 impl 0
  unfolding after_connect
  connected_runs n (net, sent, some (ok other)) impl e =
      let same : other ≡ impl = ground arith in rw same refl
  connected_runs n (net, sent, some (throw x)) impl e = absurd (ground arith)
  connected_runs n (net, sent, some (throw_std what)) impl e = absurd (ground arith)
  connected_runs n (net, sent, none) impl e = absurd (ground arith)

  -- The handles of a client to the pipelines of this name at the members.
  abbrev pub handles : View → String → List PipelineHandleImpl
  handles view name = map (pipeline_at client 0 name) (addresses view.members)

  run_client_ready :
      IsWilling backend
      → (net : Network B J) (view : View) (ssg_file name : String) (n : ℕ)
      → (view.loads ≡ true)
        × (view.observes ≡ true)
        × (view.has_size ≡ true)
        × All (IsReachable client) view.members
      → AreApart (handles view name)
      → length view.members ≢ 0
      → AllAt net (compute_group_hash (map (λ m. m.id) view.members)) (idle 0) (handles view name)
      → (after : Network B J) × (self : DistributedImpl) × (run_client backend host client expose
            options memory refreshes
            (suc n)
            net
            view
            ssg_file
            name
          ≡ completes after self)
        × AllAt after
            (compute_group_hash (map (λ m. m.id) view.members))
            (idle n)
            (handles view name)
  unfolding run_client new_impl
  run_client_ready willing net view ssg_file name n (file, observed, sized, reachable) apart
        some_server h =
      let hash = compute_group_hash (map (λ m. m.id) view.members) in
      let connected = connect backend host client net view ssg_file 0 name true in
      let (same, made) =
        connect_checked backend host client 0 name net view ssg_file file observed sized reachable
          (exist net hash (idle 0) (handles view name) h) in
      let impl =
        new_impl name (some (map (λ m. m.id) view.members)) ssg_file 0 (handles view name) in
      let (after, runs, done) =
        run_iterations_completes backend host client expose options memory refreshes willing impl n
          0 0 connected.0 apart
          (λ e. some_server (sym (length-handles client 0 name view.members) ∙ e)) (inl refl)
          (same-AllAt connected.0 net hash (idle 0) (handles view name) same h) in
      let last : 0 + n ≡ n = omega arith in
      (
        after,
        impl,
        connected_runs (suc n) connected impl made ∙ runs,
        subst (λ (m : ℕ). AllAt after hash (idle m) (handles view name)) last done,
      )

  -- If createDistributedPipeline comes to its end on a group with members, which can be reached and whose
  -- providers, of id 0, have the hash of the view, then the example client, with the same view, makes
  -- its handle and runs one or more iterations of the pipeline to the end without an exception, where
  -- the backends agree to everything and the members are distinct; every pipeline is then idle with
  -- the number of the last iteration.
  pub create_then_run :
      IsWilling backend
      → (engine : Engine) (c : Creating) (net : Network B J) (view : View) (ssg_file : String)
        (n : ℕ)
      → (view.loads ≡ true)
        × (view.observes ≡ true)
        × (view.has_size ≡ true)
        × All (IsReachable client) view.members
      → AreApart (handles view c.name)
      → length view.members ≢ 0
      → All
          (λ m.
            hash_at net (server_of engine 0 m)
            ≡ some (compute_group_hash (map (λ m. m.id) view.members)))
          view.members
      → let (ready, ended) =
          create_distributed_pipeline backend host engine net view ssg_file 0 c in
        ended ≡ finished
        → (after : Network B J) × (self : DistributedImpl) × (run_client backend host client expose
              options memory refreshes
              (suc n)
              ready
              view
              ssg_file
              c.name
            ≡ completes after self)
          × AllAt after
              (compute_group_hash (map (λ m. m.id) view.members))
              (idle n)
              (handles view c.name)
  create_then_run willing engine c net view ssg_file n usable apart some_server hashes e =
      let ready = (create_distributed_pipeline backend host engine net view ssg_file 0 c).0 in
      run_client_ready willing ready view ssg_file c.name n usable apart some_server (
        create_distributed_pipeline-AllAt backend host client engine 0 _ c net view ssg_file
          usable.3 hashes e)

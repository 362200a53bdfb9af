-- ===== src/Client/Connect.antt =====
-- src/Client.cpp and src/DistributedPipelineHandleImpl.hpp: making handles, and what rank 0
-- broadcasts to the other ranks of the clients on the way.
use mochi_colza.Base.{
  ℕ, ◌+◌, ◌*◌, String, ◌<>◌, Bool, Option, none, some, List, [], ◌∷◌, ◌++◌, map, ℤ, length,
  if◌then◌else◌,
}
use mochi_colza.Result.{Outcome, ok, throw, throw_std, exception, ssg_error}
use mochi_colza.Group.{MemberId, compute_group_hash}
use mochi_colza.Backend.{Backend}
use mochi_colza.Provider.Pipelines.{Host}
use mochi_colza.Provider.Requests
use mochi_colza.Client.Addresses.{Address, zeros, copy_address}
use mochi_colza.Client.Network.{Reply, answered, failed, Network, call}
use mochi_colza.Client.PipelineHandle.{PipelineHandleImpl}

-- The client's engine: its own address, and the addresses that `lookup` finds. `decimal` is
-- std::to_string.
pub record Client : Type 0 where
  pub self_addr : String
  pub lookup_finds : Address → Bool
  pub decimal : ℤ → String

-- What SSG answers about the member of one rank. A status is `none` for SSG_SUCCESS, otherwise the
-- code that the call returned.
pub record Member : Type 0 where
  pub id_status : Option ℤ
  pub id : MemberId
  pub addr_status : Option ℤ
  pub address : Address

-- What SSG answers about the group of a file: whether the file loads, whether the group can be
-- observed, whether its size is known, and its members in the order of their ranks.
pub record View : Type 0 where
  pub loads : Bool
  pub observes : Bool
  pub has_size : Bool
  pub members : List Member

-- What rank 0 broadcasts: the flag `ok` of `start`, a group size or -1, and the packed addresses.
pub data Broadcast : Type 0 where
  sent_ok : Bool → Broadcast
  sent_size : ℕ → Broadcast
  sent_failure : Broadcast
  sent_addresses : List ℕ → Broadcast

-- DistributedPipelineHandleImpl. `group_hash` is 0 on the ranks that do not observe the group.
pub record DistributedImpl : Type 0 where
  pub name : String
  pub hash : String → ℕ → ℕ → ℕ
  pub pipelines : List PipelineHandleImpl
  pub ssg_group_file : String
  pub group_hash : ℕ
  pub provider_id : ℕ

-- The hash function that a new handle has.
abbrev pub block_hash : String → ℕ → ℕ → ℕ
block_hash dataset_name iteration block_id = block_id

unfoldable pub new_impl :
    String → Option (List MemberId) → String → ℕ → List PipelineHandleImpl → DistributedImpl
new_impl name gid ssg_group_file provider_id pipelines = record {
  name = name;
  hash = block_hash;
  pipelines = pipelines;
  ssg_group_file = ssg_group_file;
  group_hash = elim gid [ none ↦ 0 | some ids ↦ compute_group_hash ids ];
  provider_id = provider_id;
}

abbrev pub pipeline_at : Client → ℕ → String → Address → PipelineHandleImpl
pipeline_at client provider_id name address = record {
  name = name;
  self_addr = client.self_addr;
  ph = record { address = address; provider_id = provider_id };
}

unfoldable pub checked :
    {N : Type 0} → PipelineHandleImpl → N × Reply → N × Outcome PipelineHandleImpl
checked pipeline_impl (net, answered result) =
    if result.success
    then (net, ok pipeline_impl)
    else (net, throw (record { code = result.value; what = result.error }))
checked pipeline_impl (net, failed what) = (net, throw_std what)

-- A step that may broadcast and throw, with what follows it if it does neither.
unfoldable pub and_then :
    {N A C : Type 0}
    → N × List Broadcast × Option (Outcome A)
    → (N → A → N × List Broadcast × Option (Outcome C))
    → N × List Broadcast × Option (Outcome C)
and_then (net, sent, some (ok a)) rest = rest net a
and_then (net, sent, some (throw e)) rest = (net, sent, some (throw e))
and_then (net, sent, some (throw_std what)) rest = (net, sent, some (throw_std what))
and_then (net, sent, none) rest = (net, sent, none)

module _ {B J : Type 0} (backend : Backend B) (host : Host B J) (client : Client) where
  -- Client::makePipelineHandle
  unfoldable pub make_pipeline_handle :
      Network B J → Address → ℕ → String → Bool → Network B J × Outcome PipelineHandleImpl
  unfolding checked call
  make_pipeline_handle net address provider_id name check =
      let pipeline_impl = pipeline_at client provider_id name address in
      if client.lookup_finds address
      then if check
        then checked pipeline_impl (call backend host net pipeline_impl.ph (Requests.check name))
        else (net, ok pipeline_impl)
      else (net, throw_std "address not found")

  -- What the loop over the members has: the buffer and the handles so far.
  abbrev pub Loaded : Type 0
  Loaded = List ℕ × List PipelineHandleImpl

  -- The end of an iteration, the buffer being written: -1 is broadcast if no handle could be made.
  unfoldable pub loaded_one :
      List ℕ
      → List PipelineHandleImpl
      → Network B J × Outcome PipelineHandleImpl
      → Network B J × List Broadcast × Option (Outcome Loaded)
  loaded_one written pipelines (net, ok pipeline) =
      (net, [], some (ok (written, pipelines ++ pipeline ∷ [])))
  loaded_one written pipelines (net, throw e) = (net, sent_failure ∷ [], some (throw e))
  loaded_one written pipelines (net, throw_std what) =
      (net, sent_failure ∷ [], some (throw_std what))

  -- One iteration, the loop variable being i. The outcome is `none` where strcpy writes past the end
  -- of the buffer.
  unfoldable pub load_member :
      Network B J
      → ℕ
      → Member
      → ℕ
      → String
      → Bool
      → Loaded
      → Network B J × List Broadcast × Option (Outcome Loaded)
  unfolding loaded_one copy_address make_pipeline_handle
  load_member net i member provider_id name check (buffer, pipelines) = elim member.id_status [
    | some ret ↦ (
      net,
      [],
      some (
          throw (
            exception ssg_error (
              "Could not get member if from rank (ssg_get_group_member_id_from_rank returned "
              <> (client.decimal ret <> ")")))),
    )
    | none ↦ elim member.addr_status [
      | some ret ↦ (
        net,
        [],
        some (
            throw (
              exception ssg_error (
                "Could not get member address (ssg_get_group_member_addr returned "
                <> (client.decimal ret <> ")")))),
      )
      | none ↦ elim (copy_address i member.address buffer) [
        | none ↦ (net, [], none)
        | some written ↦
            loaded_one written pipelines
              (make_pipeline_handle net member.address provider_id name check)
      ]
    ]
  ]

  unfoldable pub load_members :
      Network B J
      → ℕ
      → List Member
      → ℕ
      → String
      → Bool
      → Loaded
      → Network B J × List Broadcast × Option (Outcome Loaded)
  unfolding load_member and_then
  load_members net i [] provider_id name check state = (net, [], some (ok state))
  load_members net i (member ∷ members) provider_id name check state =
      and_then (load_member net i member provider_id name check state)
        λ net state. load_members net (i + 1) members provider_id name check state

  -- The end of rank 0's branch: the broadcasts, and the object.
  unfoldable pub finish_connecting :
      View
      → String
      → ℕ
      → String
      → Network B J
      → Loaded
      → Network B J × List Broadcast × Option (Outcome DistributedImpl)
  unfolding new_impl
  finish_connecting view ssg_group_file provider_id name net (buffer, pipelines) = (
    net,
    sent_size (length view.members) ∷ sent_addresses buffer ∷ [],
    some (
        ok (
          new_impl name (some (map (λ m. m.id) view.members)) ssg_group_file provider_id
            pipelines)),
  )

  -- Client::makeDistributedPipelineHandle on rank 0
  unfoldable pub connect :
      Network B J
      → View
      → String
      → ℕ
      → String
      → Bool
      → Network B J × List Broadcast × Option (Outcome DistributedImpl)
  unfolding load_members and_then finish_connecting
  connect net view ssg_group_file provider_id name check =
      if view.loads
      then if view.observes
        then if view.has_size
          then and_then
              (load_members net 0 view.members provider_id name check
                (zeros (length view.members * 256), []))
              (finish_connecting view ssg_group_file provider_id name)
          else (net, [], some (throw (exception ssg_error "Could not get group size")))
        else (
          net,
          [],
          some (
              throw (
                exception ssg_error
                  ("Could not observe the SSG group from file " <> ssg_group_file))),
        )
      else (
        net,
        [],
        some (throw (exception ssg_error ("Could not open SSG group file " <> ssg_group_file))),
      )

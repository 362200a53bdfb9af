-- ===== src/Facade/Impl.antt =====
-- src/ProviderImpl.hpp: the constructor and the destructor, and what they register in the engine and
-- in SSG; and the handler `getMonaAddress`.
use mochi_colza.Base.{
  string_eq, nat_eq, ℕ, String, ◌<>◌, Bool, true, false, ◌&&◌, Option, none, some, List, [], ◌∷◌,
  ◌++◌, ℤ, ◌==◌, if◌then◌else◌,
}
use mochi_colza.Result.{RequestResult, fresh, Exception, exception, ssg_error, mona_error}
use mochi_colza.Group.{MemberId, compute_group_hash}
use mochi_colza.Backend.{Registry}
use mochi_colza.Provider.State.{Provider}
use mochi_colza.Provider.Membership.{
  Mona, Resolution, resolved, failed, out_of_fuel, resolve_mona_addresses,
}

pub data Rpc : Type 0 where
  create_pipeline destroy_pipeline check_pipeline start stage execute cleanup abort leave
        get_mona_addr :
      Rpc

-- What the engine and SSG hold of the providers of a process: the RPCs by provider id, the finalize
-- callbacks, newest first, each the address of the `Provider` that it resets, and the numbers of
-- the `ProviderImpl`s whose callback SSG calls.
pub record Engine : Type 0 where
  pub rpcs : List (ℕ × Rpc)
  pub callbacks : List ℕ
  pub watchers : List ℕ

-- What SSG answers to the constructor. A status is `none` for SSG_SUCCESS. `hashed_ids` are the
-- members of the group when the hash is computed.
pub record Ssg : Type 0 where
  pub join_status : Option ℤ
  pub hashed_ids : List MemberId
  pub self_id_status : Option ℤ
  pub self_id : MemberId
  pub rank_status : Option ℤ
  pub self_rank : ℕ
  pub size_status : Option ℤ
  pub ids_status : Option ℤ
  pub member_ids : List MemberId

-- The calls of MoNA for one's own address, `none` being an error, and the text of the exception that
-- a failing `mona_addr_lookup` raises.
pub record MonaSelf : Type 0 where
  pub has_addr : Bool
  pub text : Option String
  pub lookup_error : String

-- How the constructor ends: with an object, with an exception, or not yet.
pub data Construction (A : Type 0) : Type 0 where
  built : A → Construction A
  raised : Exception → Construction A
  waits : Construction A

-- The ten members that the constructor initialises by `define`.
abbrev pub defined : ℕ → List (ℕ × Rpc)
defined id =
    (id, create_pipeline)
    ∷ (id, destroy_pipeline)
    ∷ (id, check_pipeline)
    ∷ (id, start)
    ∷ (id, stage)
    ∷ (id, execute)
    ∷ (id, cleanup)
    ∷ (id, abort)
    ∷ (id, leave)
    ∷ (id, get_mona_addr)
    ∷ []

-- Which ones the destructor deregisters.
abbrev pub is_deregistered : Rpc → Bool
is_deregistered start = false
is_deregistered leave = false
is_deregistered get_mona_addr = false
is_deregistered _ = true

unfoldable pub deregister : ℕ → List (ℕ × Rpc) → List (ℕ × Rpc)
deregister id [] = []
deregister id ((j, rpc) ∷ rpcs) =
    let rest = deregister id rpcs in
    if j == id && is_deregistered rpc then rest else (j, rpc) ∷ rest

-- Removes the newest entry of the number.
unfoldable pub pop : ℕ → List ℕ → List ℕ
pop n [] = []
pop n (m ∷ ms) = let rest = pop n ms in if m == n then ms else m ∷ rest

-- ~ProviderImpl. The pipelines and the addresses go with the object.
unfoldable pub destruct_impl : ℕ → ℕ → Engine → Engine
unfolding deregister pop
destruct_impl provider_id number e = record e {
  rpcs = deregister provider_id e.rpcs;
  watchers = pop number e.watchers;
}

abbrev pub ssg_failure : (ℤ → String) → String → ℤ → Exception
ssg_failure decimal text ret = exception ssg_error (text <> decimal ret)

module _ {B J : Type 0} where
  -- A call of SSG, with what follows it.
  abbrev pub checked :
      Option ℤ → (ℤ → Exception) → Construction (Provider B J) → Construction (Provider B J)
  checked none e rest = rest
  checked (some ret) e rest = raised (e ret)

  -- The end of `_resolveMonaAddresses`.
  unfoldable pub finished : MonaSelf → Resolution (Provider B J) → Construction (Provider B J)
  finished self (resolved p) = built p
  finished self failed = raised (exception mona_error self.lookup_error)
  finished self out_of_fuel = waits

  module _ (decimal : ℤ → String) (ssg : Ssg) (self : MonaSelf) (mona : Mona) (fuel : ℕ) where
    -- `_resolveMonaAddresses`, with its calls of SSG.
    unfoldable pub resolve : Provider B J → Construction (Provider B J)
    unfolding finished resolve_mona_addresses
    resolve p =
        checked ssg.self_id_status (ssg_failure decimal "ssg_get_self_id failed with error code ") (
          checked ssg.rank_status
            (ssg_failure decimal "ssg_get_group_member_rank failed with error code ")
            (checked ssg.size_status
              (ssg_failure decimal "ssg_get_group_size failed with error code ")
              (checked ssg.ids_status
                (ssg_failure decimal "ssg_get_group_member_ids_from_range failed with error code ")
                (finished self
                  (resolve_mona_addresses mona fuel ssg.self_id ssg.self_rank ssg.member_ids p)))))

    -- The block of the constructor that asks MoNA, and what follows it.
    unfoldable pub with_address : Provider B J → Construction (Provider B J)
    unfolding resolve
    with_address p =
        if self.has_addr
        then elim self.text [
          | none ↦ raised (exception mona_error "Could not serialize MoNA address")
          | some text ↦ resolve (record p { mona_self_addr = text })
        ]
        else raised (exception mona_error "Could not get address from MoNA")

    -- The constructor of the `ProviderImpl` with this number.
    unfoldable pub construct_impl :
        Engine → ℕ → ℕ → Registry B J → ℕ → Bool → Engine × Construction (Provider B J)
    unfolding with_address
    construct_impl e number provider_id create_fn gid must_join =
        let defined_ = record e { rpcs = defined provider_id ++ e.rpcs } in
        let watched = record defined_ { watchers = number ∷ e.watchers } in
        let p : Provider B J = record {
          token = "";
          gid = gid;
          group_hash = compute_group_hash ssg.hashed_ids;
          mona_self_addr = "";
          mona_addresses = [];
          pipelines = [];
          num_active_pipelines = 0;
          create_fn = create_fn;
          left = false;
          finalized = false;
        } in
        if must_join
        then elim ssg.join_status [
          | none ↦ (watched, with_address p)
          | some ret ↦ (
            defined_,
            raised (
                exception ssg_error
                  ("Could not join SSG group (ssg_group_join returned " <> (decimal ret <> ")"))),
          )
        ]
        else (watched, with_address p)

  -- `none` is a handler that still waits on the condition variable.
  unfoldable pub get_mona_address : Provider B J → Option (RequestResult String)
  unfolding fresh
  get_mona_address p =
      if p.mona_self_addr == "" then none else some (record fresh { value = some p.mona_self_addr })

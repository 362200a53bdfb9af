-- ===== src/Provider/Membership.antt =====
-- src/ProviderImpl.hpp: the MoNA addresses of the group's members, and the callback by which SSG
-- reports that a member joined or left.
use mochi_colza.Base.{
  string_eq, length, [], ℕ, zero, suc, ◌+◌, ◌%◌, String, Option, none, some, List, ◌==◌,
  if◌then◌else◌, get_elem?, nat_eq,
}
use mochi_colza.Base.Map.{Map, lookup, erase, map_values}
use mochi_colza.Base.OrderedMap.{insert, insert_new, values}
use mochi_colza.Group.{MemberId, update_group_hash}
use mochi_colza.Backend.{NaAddr, Backend}
use mochi_colza.Provider.State.{PipelineState, Provider}

-- `SSG_MEMBER_JOINED`, and the two other values of `ssg_member_update_type_t`.
pub data UpdateType : Type 0 where
  member_joined member_left member_died : UpdateType

-- The calls into MoNA, and the RPC `colza_get_mona_addr`: `ask id n` is what the n-th call to that
-- member does, `none` being an exception.
pub record Mona : Type 0 where
  pub self : NaAddr
  pub addr_lookup : String → Option NaAddr
  pub ask : MemberId → ℕ → Option String

-- `out_of_fuel` is a loop that has not ended yet, `failed` the exception `MONA_ERROR`.
pub data Resolution (A : Type 0) : Type 0 where
  resolved : A → Resolution A
  failed : Resolution A
  out_of_fuel : Resolution A

-- The loop of `_requestMonaAddressFromSSGMember`, from its n-th attempt on.
unfoldable pub ask_until : Mona → ℕ → MemberId → ℕ → Option String
ask_until mona zero id n = none
ask_until mona (suc fuel) id n = elim (mona.ask id n) [
  | none ↦ ask_until mona fuel id (n + 1)
  | some text ↦ some text
]

unfoldable pub request_mona_address : Mona → ℕ → MemberId → Resolution NaAddr
unfolding ask_until
request_mona_address mona fuel id = elim (ask_until mona fuel id 0) [
  | none ↦ out_of_fuel
  | some text ↦ elim (mona.addr_lookup text) [ none ↦ failed | some addr ↦ resolved addr ]
]

-- The body of the loop of `_resolveMonaAddresses` for one member.
unfoldable pub member_address : Mona → ℕ → MemberId → MemberId → Resolution NaAddr
unfolding request_mona_address
member_address mona fuel self_id id =
    if id == self_id then resolved mona.self else request_mona_address mona fuel id

-- The loop, from index i on, over the members that are left: the rank starts at one's own and
-- wraps. `none` at `member_ids[j]` is a read out of range.
unfoldable pub resolve_loop :
    Mona
    → ℕ
    → MemberId
    → ℕ
    → ℕ
    → List MemberId
    → Map MemberId NaAddr
    → ℕ
    → ℕ
    → Map MemberId NaAddr
    → Resolution (Map MemberId NaAddr)
unfolding member_address
resolve_loop mona fuel self_id self_rank size ids known zero i tmp = resolved tmp
resolve_loop mona fuel self_id self_rank size ids known (suc left) i tmp =
    elim (get_elem? ids ((self_rank + i) % size)) [
      | none ↦ failed
      | some id ↦ elim (lookup id known) [
        | some _ ↦ resolve_loop mona fuel self_id self_rank size ids known left (i + 1) tmp
        | none ↦ elim (member_address mona fuel self_id id) [
          | resolved addr ↦
              resolve_loop mona fuel self_id self_rank size ids known left (i + 1)
                (insert id addr tmp)
          | failed ↦ failed
          | out_of_fuel ↦ out_of_fuel
        ]
      ]
    ]

module _ {B J : Type 0} where
  -- `m_mona_addresses.insert(tmp_addresses.begin(), tmp_addresses.end())`
  abbrev pub merge_addresses : Provider B J → Map MemberId NaAddr → Provider B J
  merge_addresses p tmp = record p { mona_addresses = insert_new tmp p.mona_addresses }

  -- The last lines of `_resolveMonaAddresses`, which an exception does not reach.
  unfoldable pub finish_resolving :
      Provider B J → Resolution (Map MemberId NaAddr) → Resolution (Provider B J)
  finish_resolving p (resolved tmp) = resolved (merge_addresses p tmp)
  finish_resolving p failed = failed
  finish_resolving p out_of_fuel = out_of_fuel

  -- `_resolveMonaAddresses`, after SSG has given one's own id and rank, and the group's ids.
  unfoldable pub resolve_mona_addresses :
      Mona → ℕ → MemberId → ℕ → List MemberId → Provider B J → Resolution (Provider B J)
  unfolding resolve_loop finish_resolving
  resolve_mona_addresses mona fuel self_id self_rank ids p =
      finish_resolving p (
        resolve_loop mona fuel self_id self_rank (length ids) ids p.mona_addresses (length ids) 0
          [])

  -- The two lines that `_membershipUpdate` runs in the callback itself.
  unfoldable pub note_update : Provider B J → MemberId → Provider B J
  note_update p member_id = record p { group_hash = update_group_hash p.group_hash member_id }

  module _ (backend : Backend B) where
    -- The last part of the thread: every pipeline is told of the addresses.
    unfoldable pub tell_pipelines : Provider B J → Provider B J
    tell_pipelines p = record p {
      pipelines =
          map_values
            (λ (s : PipelineState B). record s {
              pipeline = backend.update_mona_addresses (values p.mona_addresses) s.pipeline;
            })
            p.pipelines;
    }

    -- The thread that `_membershipUpdate` starts.
    unfoldable pub membership_thread :
        Mona → ℕ → Provider B J → MemberId → UpdateType → Resolution (Provider B J)
    unfolding request_mona_address tell_pipelines
    membership_thread mona fuel p member_id member_joined =
        elim (request_mona_address mona fuel member_id) [
          | resolved na_addr ↦ resolved (
              tell_pipelines
                (record p { mona_addresses = insert member_id na_addr p.mona_addresses }))
          | failed ↦ failed
          | out_of_fuel ↦ out_of_fuel
        ]
    membership_thread mona fuel p member_id _ =
        resolved (tell_pipelines (record p { mona_addresses = erase member_id p.mona_addresses }))

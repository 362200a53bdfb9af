-- ===== src/Facade/Built.antt =====
-- src/ProviderImpl.hpp: the state of a new provider, and the RPCs that outlive it.
use mochi_colza.Base.{
  nat_eq, string_eq, ℕ, ◌<◌, ◌≡◌, refl, ap, sym, subst, String, Bool, true, false, some, List, [],
  ◌∷◌, ◌++◌, arith, inl, inr, Option-cases, ℤ, length, get_elem?, get_elem?-bound, All, ◌≢◌,
  same_self,
}
use mochi_colza.Base.Map.{Map, total}
use mochi_colza.Group.{MemberId, compute_group_hash}
use mochi_colza.Backend.{NaAddr, Registry}
use mochi_colza.Provider.State.{Provider}
use mochi_colza.Provider.Invariant.{Inv}
use mochi_colza.Provider.Membership.{
  Mona, Resolution, resolved, failed, out_of_fuel, resolve_mona_addresses, finish_resolving,
}
use mochi_colza.Provider.Resolving.{has, resolved_covers}
use mochi_colza.Facade.Impl.{
  Rpc, Engine, Ssg, MonaSelf, built, start, leave, get_mona_addr, defined, deregister,
  destruct_impl, resolve, finished, with_address, construct_impl,
}

deregister_other :
    (id : ℕ) (rpcs : List (ℕ × Rpc))
    → All (λ (r : ℕ × Rpc). r.0 ≢ id) rpcs
    → deregister id rpcs ≡ rpcs
unfolding deregister
deregister_other id [] h = refl
deregister_other id ((j, rpc) ∷ rpcs) h = ground (arith, deregister_other id rpcs h.1)

defined_left :
    (id : ℕ) (rpcs : List (ℕ × Rpc))
    → All (λ (r : ℕ × Rpc). r.0 ≢ id) rpcs
    → deregister id (defined id ++ rpcs) ≡ (id, start) ∷ (id, leave) ∷ (id, get_mona_addr) ∷ rpcs
unfolding deregister
defined_left id rpcs h = rw (same_self id) (rw (deregister_other id rpcs h) refl)

module _ {B J : Type 0} where
  -- A new provider: the text of its own address is there, and the rest is as the constructor sets it.
  pub record IsNew (ssg : Ssg) (text : String) (q : Provider B J) : Type 0 where
    pub sound : Inv q
    pub hash : q.group_hash ≡ compute_group_hash ssg.hashed_ids
    pub own : q.mona_self_addr ≡ text
    pub empty : q.pipelines ≡ []
    pub open_ : q.token ≡ ""
    pub covers :
        (j : ℕ) (id : MemberId)
        → ssg.self_rank < length ssg.member_ids
        → get_elem? ssg.member_ids j ≡ some id
        → has id q.mona_addresses ≡ true

module _ {B J : Type 0} (decimal : ℤ → String) (ssg : Ssg) (self : MonaSelf) (mona : Mona)
    (fuel : ℕ) where
  finished-built :
      (r : Resolution (Provider B J)) (q : Provider B J)
      → finished self r ≡ built q
      → r ≡ resolved q
  unfolding finished
  finished-built (resolved p) q e = cc
  finished-built failed q e = cc
  finished-built out_of_fuel q e = cc

  resolve-built :
      (p q : Provider B J)
      → resolve decimal ssg self mona fuel p ≡ built q
      → resolve_mona_addresses mona fuel ssg.self_id ssg.self_rank ssg.member_ids p ≡ resolved q
  unfolding resolve
  resolve-built p q e =
      finished-built (resolve_mona_addresses mona fuel ssg.self_id ssg.self_rank ssg.member_ids p) q
        (ground arith)

  -- `_resolveMonaAddresses` changes nothing but the addresses.
  rest_kept :
      (p q : Provider B J) (r : Resolution (Map MemberId NaAddr))
      → finish_resolving p r ≡ resolved q
      → record p { mona_addresses = q.mona_addresses } ≡ q
  unfolding finish_resolving
  rest_kept p q (resolved tmp) e = cc
  rest_kept p q failed e = ground arith
  rest_kept p q out_of_fuel e = ground arith

  resolve_mona_addresses_kept :
      (p q : Provider B J)
      → resolve_mona_addresses mona fuel ssg.self_id ssg.self_rank ssg.member_ids p ≡ resolved q
      → record p { mona_addresses = q.mona_addresses } ≡ q
  unfolding resolve_mona_addresses
  resolve_mona_addresses_kept p q e = rest_kept p q _ e

  -- What the constructor of a `ProviderImpl` has before it asks MoNA.
  abbrev bare : Registry B J → ℕ → String → Provider B J
  bare create_fn gid text = record {
    token = "";
    gid = gid;
    group_hash = compute_group_hash ssg.hashed_ids;
    mona_self_addr = text;
    mona_addresses = [];
    pipelines = [];
    num_active_pipelines = 0;
    create_fn = create_fn;
    left = false;
    finalized = false;
  }

  resolve-IsNew :
      (create_fn : Registry B J) (gid : ℕ) (text : String) (q : Provider B J)
      → resolve decimal ssg self mona fuel (bare create_fn gid text) ≡ built q
      → IsNew ssg text q
  unfolding total
  resolve-IsNew create_fn gid text q e =
      let p = bare create_fn gid text in
      let found = resolve-built p q e in
      let q_is = resolve_mona_addresses_kept p q found in
      record {
        sound = subst Inv q_is (record { distinct = tt; counted = refl });
        hash = sym (ap (λ r. r.group_hash) q_is);
        own = sym (ap (λ r. r.mona_self_addr) q_is);
        empty = sym (ap (λ r. r.pipelines) q_is);
        open_ = sym (ap (λ r. r.token) q_is);
        covers = λ j id rank_in at.
            resolved_covers mona fuel ssg.self_id ssg.self_rank j ssg.member_ids p q id found
              rank_in (get_elem?-bound ssg.member_ids j id at) at;
      }

  with_address-IsNew :
      (create_fn : Registry B J) (gid : ℕ) (q : Provider B J)
      → with_address decimal ssg self mona fuel (bare create_fn gid "") ≡ built q
      → (text : String) × (self.text ≡ some text) × IsNew ssg text q
  unfolding with_address
  with_address-IsNew create_fn gid q e = elim (Option-cases self.text) [
    | inl none_ ↦ absurd (ground arith)
    | inr (text, there) ↦ (text, there, resolve-IsNew create_fn gid text q (ground arith))
  ]

  -- A constructor of `ProviderImpl` that comes to its end without an exception gives a provider whose
  -- invariant holds, with the hash of the group, its own address, no pipeline and no token, and with
  -- an address for every member, its rank being one of the group's.
  pub construct_impl-IsNew :
      (e : Engine) (number provider_id gid : ℕ) (create_fn : Registry B J) (must_join : Bool)
      (q : Provider B J)
      → (construct_impl decimal ssg self mona fuel e number provider_id create_fn gid must_join).1
        ≡ built q
      → (text : String) × (self.text ≡ some text) × IsNew ssg text q
  unfolding construct_impl
  construct_impl-IsNew e number provider_id gid create_fn false q made =
      with_address-IsNew create_fn gid q made
  construct_impl-IsNew e number provider_id gid create_fn true q made =
      elim (Option-cases ssg.join_status) [
        | inl joined_ ↦ with_address-IsNew create_fn gid q (ground arith)
        | inr (ret, failed_) ↦ absurd (ground arith)
      ]

  -- The destructor of a `ProviderImpl` that was constructed under a new provider id leaves three of
  -- its RPCs registered: start, leave and getMonaAddress. It touches no other provider's.
  pub destruct_impl-construct_impl :
      (e : Engine) (number provider_id gid : ℕ) (create_fn : Registry B J) (must_join : Bool)
      → All (λ (r : ℕ × Rpc). r.0 ≢ provider_id) e.rpcs
      → (destruct_impl provider_id number
          (construct_impl decimal ssg self mona fuel e number provider_id create_fn gid
            must_join).0).rpcs
        ≡ (provider_id, start) ∷ (provider_id, leave) ∷ (provider_id, get_mona_addr) ∷ e.rpcs
  unfolding destruct_impl construct_impl
  destruct_impl-construct_impl e number provider_id gid create_fn false h =
      defined_left provider_id e.rpcs h
  destruct_impl-construct_impl e number provider_id gid create_fn true h =
      elim (Option-cases ssg.join_status) [
        | inl joined_ ↦ rw joined_ (defined_left provider_id e.rpcs h)
        | inr (ret, failed_) ↦ rw failed_ (defined_left provider_id e.rpcs h)
      ]

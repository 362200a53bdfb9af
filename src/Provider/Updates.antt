-- ===== src/Provider/Updates.antt =====
-- src/ProviderImpl.hpp: what the thread of `_membershipUpdate` does to the map of addresses, and
-- what it leaves alone.
use mochi_colza.Base.{ℕ, ◌≡◌, ◌≢◌, refl, Bool, true, false, arith, String, nat_eq, string_eq, subst}
use mochi_colza.Base.Map.{
  Map, lookup, erase, lookup-erase, lookup-map_values, map_values-Distinct, total-map_values,
}
use mochi_colza.Base.OrderedMap.{insert, lookup-insert, values}
use mochi_colza.Group.{MemberId}
use mochi_colza.Backend.{NaAddr, Backend}
use mochi_colza.Provider.State.{PipelineState, Provider}
use mochi_colza.Provider.Invariant.{weight, Inv}
use mochi_colza.Provider.Phases.{phase}
use mochi_colza.Provider.Membership.{
  Mona, UpdateType, member_joined, member_left, member_died, Resolution, resolved, failed,
  out_of_fuel, request_mona_address, tell_pipelines, membership_thread,
}
use mochi_colza.Provider.Resolving.{has}

abbrev pub is_join : UpdateType → Bool
is_join member_joined = true
is_join _ = false

module _ {B J : Type 0} where
  -- After the thread, from p to q.
  pub record Updated (p q : Provider B J) (id : MemberId) (joined : Bool) : Type 0 where
    pub sound : Inv q
    pub phases : (name : String) → phase q name ≡ phase p name
    pub member : has id q.mona_addresses ≡ joined
    pub others : (j : MemberId) → j ≢ id → lookup j q.mona_addresses ≡ lookup j p.mona_addresses

module _ {B J : Type 0} (backend : Backend B) where
  tell_pipelines-Inv : (p : Provider B J) → Inv p → Inv (tell_pipelines backend p)
  unfolding tell_pipelines
  tell_pipelines-Inv p v =
      let f : PipelineState B → PipelineState B = λ s. record s {
        pipeline = backend.update_mona_addresses (values p.mona_addresses) s.pipeline;
      } in
      let same_total = total-map_values {K = String} weight f p.pipelines (λ s. refl) in
      record {
        distinct = map_values-Distinct f p.pipelines v.distinct;
        counted = rw (same_total, v.counted);
      }

  phase-tell_pipelines :
      (p : Provider B J) (name : String) → phase (tell_pipelines backend p) name ≡ phase p name
  unfolding tell_pipelines
  phase-tell_pipelines p name =
      let f : PipelineState B → PipelineState B = λ s. record s {
        pipeline = backend.update_mona_addresses (values p.mona_addresses) s.pipeline;
      } in
      grind (arith, lookup-map_values f name p.pipelines)

  told :
      (p : Provider B J) (id : MemberId) (joined : Bool) (m : Map MemberId NaAddr)
      → Inv p
      → has id m ≡ joined
      → ((j : MemberId) → j ≢ id → lookup j m ≡ lookup j p.mona_addresses)
      → Updated p (tell_pipelines backend (record p { mona_addresses = m })) id joined
  unfolding tell_pipelines
  told p id joined m v here there =
      let q : Provider B J = record p { mona_addresses = m } in
      record {
        sound = tell_pipelines-Inv q (record { distinct = v.distinct; counted = v.counted });
        phases = λ name. phase-tell_pipelines q name;
        member = here;
        others = there;
      }

  module _ (p q : Provider B J) (id : MemberId) (v : Inv p) where
    after_join :
        (asked : Resolution NaAddr)
        → (elim asked [
          | resolved na_addr ↦ resolved (
              tell_pipelines backend
                (record p { mona_addresses = insert id na_addr p.mona_addresses }))
          | failed ↦ failed
          | out_of_fuel ↦ out_of_fuel
        ])
          ≡ resolved q
        → Updated p q id true
    after_join (resolved a) e =
        let m = insert id a p.mona_addresses in
        let q_is : tell_pipelines backend (record p { mona_addresses = m }) ≡ q = cc in
        subst (λ r. Updated p r id true) q_is
          (told p id true m v (grind (arith, lookup-insert id id a p.mona_addresses))
            (λ j ne. grind (arith, lookup-insert id j a p.mona_addresses)))
    after_join failed e = ground arith
    after_join out_of_fuel e = ground arith

    after_departure :
        resolved (tell_pipelines backend (record p { mona_addresses = erase id p.mona_addresses }))
          ≡ resolved q
        → Updated p q id false
    after_departure e =
        let m = erase id p.mona_addresses in
        let q_is : tell_pipelines backend (record p { mona_addresses = m }) ≡ q = cc in
        subst (λ r. Updated p r id false) q_is
          (told p id false m v (grind (arith, lookup-erase id id p.mona_addresses))
            (λ j ne. grind (arith, lookup-erase id j p.mona_addresses)))

  -- When the thread of a membership update ends, with no exception, the invariant holds if it held
  -- before, every pipeline is in the phase in which it was, the member has an address in the map
  -- exactly if it joined, and every other member has the address that it had.
  pub membership_thread_lem :
      (mona : Mona) (fuel : ℕ) (p q : Provider B J) (id : MemberId) (update : UpdateType)
      → Inv p
      → membership_thread backend mona fuel p id update ≡ resolved q
      → Updated p q id (is_join update)
  unfolding membership_thread
  membership_thread_lem mona fuel p q id member_joined v e =
      after_join p q id v (request_mona_address mona fuel id) e
  membership_thread_lem mona fuel p q id member_left v e = after_departure p q id v e
  membership_thread_lem mona fuel p q id member_died v e = after_departure p q id v e

-- ===== src/Client/Connected.antt =====
-- src/Client.cpp: what rank 0 has done once it has its handle.
use mochi_colza.Base.{
  ℕ, ◌+◌, ◌*◌, ◌≡◌, refl, sym, ap, subst, ◌∙◌, String, Bool, true, Option, none, some, List, [],
  ◌∷◌, ◌++◌, map, arith, length, All, length-append, inl, inr, Bool-cases,
}
use mathlib.Core.List.{append_assoc, append-nil}
use mochi_colza.Result.{Outcome, ok, throw, throw_std}
use mochi_colza.Backend.{Backend}
use mochi_colza.Provider.Pipelines.{Host}
use mochi_colza.Client.Addresses.{
  Address, zeros, slot, slots, Fits, copy_address-slots, length-slot,
}
use mochi_colza.Client.Network.{Network}
use mochi_colza.Client.PipelineHandle.{PipelineHandleImpl}
use mochi_colza.Client.Connect.{
  Client, Member, View, Broadcast, sent_size, sent_addresses, DistributedImpl, pipeline_at,
  load_member, load_members, and_then, finish_connecting, connect, make_pipeline_handle,
}
use mochi_colza.Client.Following.{make_unchecked}

abbrev pub addresses : List Member → List Address
addresses members = map (λ m. m.address) members

length-addresses : (members : List Member) → length members ≡ length (addresses members)
length-addresses [] = refl
length-addresses (m ∷ members) = rw (length-addresses members) refl

-- If a step and what follows it came to the end, so did the step.
and_then_ok :
    {N A C : Type 0} (r : N × List Broadcast × Option (Outcome A))
    (rest : N → A → N × List Broadcast × Option (Outcome C)) (c : C)
    → (and_then r rest).2 ≡ some (ok c)
    → (a : A) × (r.2 ≡ some (ok a)) × ((rest r.0 a).2 ≡ some (ok c))
unfolding and_then
and_then_ok (net, sent, some (ok a)) rest c e = (a, refl, e)
and_then_ok (net, sent, some (throw x)) rest c e = absurd (ground arith)
and_then_ok (net, sent, some (throw_std what)) rest c e = absurd (ground arith)
and_then_ok (net, sent, none) rest c e = absurd (ground arith)

and_then_eq :
    {N A C : Type 0} (r : N × List Broadcast × Option (Outcome A))
    (rest : N → A → N × List Broadcast × Option (Outcome C)) (a : A)
    → r.2 ≡ some (ok a)
    → and_then r rest ≡ rest r.0 a
unfolding and_then
and_then_eq (net, sent, some (ok b)) rest a e = ap (rest net) (ground arith)
and_then_eq (net, sent, some (throw x)) rest a e = absurd (ground arith)
and_then_eq (net, sent, some (throw_std what)) rest a e = absurd (ground arith)
and_then_eq (net, sent, none) rest a e = absurd (ground arith)

pub make_unchecked-All :
    (client : Client) (provider_id : ℕ) (name : String) (as_found : List Address)
    → All (λ a. client.lookup_finds a ≡ true) as_found
    → make_unchecked client provider_id name as_found
      ≡ ok (map (pipeline_at client provider_id name) as_found)
unfolding make_unchecked
make_unchecked-All client provider_id name [] h = refl
make_unchecked-All client provider_id name (a ∷ rest) h =
    ground (arith, make_unchecked-All client provider_id name rest h.1)

module _ {B J : Type 0} (backend : Backend B) (host : Host B J) (client : Client) (provider_id : ℕ)
    (name : String) (check : Bool) where
  made_pipeline :
      (net : Network B J) (a : Address) (p : PipelineHandleImpl)
      → (make_pipeline_handle backend host client net a provider_id name check).1 ≡ ok p
      → p ≡ pipeline_at client provider_id name a
  unfolding make_pipeline_handle
  made_pipeline net a p e = grind arith

  -- One iteration that goes on has written the address and made its handle.
  load_member_ok :
      (net : Network B J) (i k : ℕ) (m : Member) (written buffer : List ℕ)
      (before after : List PipelineHandleImpl)
      → length written ≡ i * 256
      → Fits m.address
      → (load_member backend host client net i m provider_id name check
          (written ++ zeros (256 + k), before)).2
        ≡ some (ok (buffer, after))
      → (buffer ≡ written ++ (slot m.address ++ zeros k))
        × (after ≡ before ++ pipeline_at client provider_id name m.address ∷ [])
  unfolding load_member
  load_member_ok net i k m written buffer before after at fits e =
      grind (arith, copy_address-slots written i k m.address at fits, made_pipeline net m.address)

  -- So has the loop, if it comes to its end.
  load_members_ok :
      (net : Network B J) (i : ℕ) (members : List Member) (written buffer : List ℕ)
      (before after : List PipelineHandleImpl)
      → length written ≡ i * 256
      → All Fits (addresses members)
      → (load_members backend host client net i members provider_id name check
          (written ++ zeros (length members * 256), before)).2
        ≡ some (ok (buffer, after))
      → (buffer ≡ written ++ slots (addresses members))
        × (after ≡ before ++ map (pipeline_at client provider_id name) (addresses members))
  unfolding load_members
  load_members_ok net i [] written buffer before after at fits e = grind (arith, append-nil)
  load_members_ok net i (m ∷ members) written buffer before after at fits e =
      let spare : length (m ∷ members) * 256 ≡ 256 + length members * 256 = omega arith in
      let e =
        subst
          (λ (n : ℕ).
            (load_members backend host client net i (m ∷ members) provider_id name check
              (written ++ zeros n, before)).2
            ≡ some (ok (buffer, after)))
          spare e in
      let ((packed, pipelines), here, there) = and_then_ok _ _ _ e in
      let (packed_is, pipelines_are) =
        load_member_ok net i (length members * 256) m written packed before pipelines at fits.0
          here in
      let net' =
        (load_member backend host client net i m provider_id name check
          (written ++ zeros (256 + length members * 256), before)).0 in
      let written' = written ++ slot m.address in
      let next : length written' ≡ (i + 1) * 256 =
        omega (arith, length-append written (slot m.address), length-slot m.address fits.0) in
      let before' = before ++ pipeline_at client provider_id name m.address ∷ [] in
      let written_is : packed ≡ written' ++ zeros (length members * 256) =
        packed_is ∙ sym (append_assoc written (slot m.address) (zeros (length members * 256))) in
      let there =
        subst
          (λ (state : List ℕ × List PipelineHandleImpl).
            (load_members backend host client net' (i + 1) members provider_id name check state).2
            ≡ some (ok (buffer, after)))
          (cc (written_is, pipelines_are)) there in
      let (buffer_is, after_is) =
        load_members_ok net' (i + 1) members written' buffer before' after next fits.1 there in
      (
        buffer_is ∙ append_assoc written (slot m.address) (slots (addresses members)),
        after_is
            ∙ append_assoc before (pipeline_at client provider_id name m.address ∷ [])
                (map (pipeline_at client provider_id name) (addresses members)),
      )

  -- What rank 0 does once SSG has the group.
  connected_by_members :
      (net : Network B J) (view : View) (ssg_group_file : String) (impl : DistributedImpl)
      → (connect backend host client net view ssg_group_file provider_id name check).2
        ≡ some (ok impl)
      → connect backend host client net view ssg_group_file provider_id name check
        ≡ and_then
            (load_members backend host client net 0 view.members provider_id name check
              (zeros (length view.members * 256), []))
            (finish_connecting backend host client view ssg_group_file provider_id name)
  unfolding connect
  connected_by_members net view ssg_group_file impl made = elim (Bool-cases view.loads) [
    | inr no_file ↦ absurd (ground arith)
    | inl file ↦ elim (Bool-cases view.observes) [
      | inr blind ↦ absurd (ground arith)
      | inl observed ↦ elim (Bool-cases view.has_size) [
        | inr no_size ↦ absurd (ground arith)
        | inl sized ↦ rw (file, observed, sized) refl
      ]
    ]
  ]

  pub connected_ok :
      (net : Network B J) (view : View) (ssg_group_file : String) (impl : DistributedImpl)
      → let connected =
          connect backend host client net view ssg_group_file provider_id name check in
        connected.2 ≡ some (ok impl)
        → All Fits (addresses view.members)
        → (impl.pipelines ≡ map (pipeline_at client provider_id name) (addresses view.members))
          × (connected.1
              ≡ sent_size (length (addresses view.members))
                ∷ sent_addresses (slots (addresses view.members))
                ∷ [])
  unfolding finish_connecting
  connected_ok net view ssg_group_file impl made fits =
      let start =
        load_members backend host client net 0 view.members provider_id name check
          (zeros (length view.members * 256), []) in
      let finish = finish_connecting backend host client view ssg_group_file provider_id name in
      let split = connected_by_members net view ssg_group_file impl made in
      let ((packed, pipelines), loaded, done) =
        and_then_ok start finish impl (subst (λ r. r.2 ≡ some (ok impl)) split made) in
      let (packed_is, pipelines_are) =
        load_members_ok net 0 view.members [] packed [] pipelines refl fits loaded in
      let all = split ∙ and_then_eq start finish (packed, pipelines) loaded in
      (
        ground (arith, done, pipelines_are),
        ap (λ r. r.1) all ∙ cc (packed_is, length-addresses view.members),
      )

  pub connected_keeps :
      (net : Network B J) (view : View) (ssg_group_file : String) (impl : DistributedImpl)
      → (connect backend host client net view ssg_group_file provider_id name check).2
        ≡ some (ok impl)
      → (impl.name ≡ name) × (impl.provider_id ≡ provider_id)
  unfolding finish_connecting
  connected_keeps net view ssg_group_file impl made =
      let start =
        load_members backend host client net 0 view.members provider_id name check
          (zeros (length view.members * 256), []) in
      let finish = finish_connecting backend host client view ssg_group_file provider_id name in
      let split = connected_by_members net view ssg_group_file impl made in
      let (loaded, _, done) =
        and_then_ok start finish impl (subst (λ r. r.2 ≡ some (ok impl)) split made) in
      (ground (arith, done), ground (arith, done))

-- ===== src/Client/Checked.antt =====
-- src/Client.cpp: a handle that asks every provider for its pipeline, and changes none.
use mochi_colza.Base.{
  ℕ, ◌+◌, ◌*◌, ◌≡◌, refl, sym, ◌∙◌, String, Bool, true, false, none, some, List, [], ◌∷◌, ◌++◌, map,
  arith, length, All, length-append, nat_eq, string_eq, inl, inr, Option-cases,
}
use mathlib.Core.List.{append_assoc, append-nil}
use mochi_colza.Base.Map.{lookup, insert, lookup-insert}
use mochi_colza.Result.{ok, fresh}
use mochi_colza.Backend.{Backend}
use mochi_colza.Provider.State.{PipelineState, Provider}
use mochi_colza.Provider.Pipelines.{Host, check_pipeline}
use mochi_colza.Provider.Requests
use mochi_colza.Client.Addresses.{zeros, slot, slots, copy_address-slots, length-slot}
use mochi_colza.Client.Network.{ProviderHandle, Network, call, handle_eq}
use mochi_colza.Client.PipelineHandle.{PipelineHandleImpl}
use mochi_colza.Client.Connect.{
  Client, Member, View, new_impl, pipeline_at, load_member, load_members, loaded_one, checked,
  make_pipeline_handle, finish_connecting, connect, and_then,
}
use mochi_colza.Client.Connected.{addresses}
use mochi_colza.Client.Reachable.{IsReachable}
use mochi_colza.Client.Outdated.{SameProviders}

-- There is a pipeline of the name at the provider.
abbrev pub exists_at : {B J : Type 0} → Network B J → PipelineHandleImpl → Bool
exists_at net p = elim (lookup p.ph net) [
  | none ↦ false
  | some provider ↦ elim (lookup p.name provider.pipelines) [ none ↦ false | some s ↦ true ]
]

module _ {B J : Type 0} (backend : Backend B) (host : Host B J) where
  check_found :
      (p : Provider B J) (name : String) (s : PipelineState B)
      → lookup name p.pipelines ≡ some s
      → Requests.serve backend host p (Requests.check name) ≡ (p, fresh)
  unfolding Requests.serve check_pipeline
  check_found p name s held = ground (arith, held)

  checked-exists_at :
      (net : Network B J) (p : PipelineHandleImpl)
      → exists_at net p ≡ true
      → (after : Network B J) × (checked p (call backend host net p.ph (Requests.check p.name))
          ≡ (after, ok p))
        × SameProviders after net
  unfolding call checked fresh
  checked-exists_at net p h = elim (Option-cases (lookup p.ph net)) [
    | inl missing ↦ absurd (ground arith)
    | inr (provider, found) ↦ elim (Option-cases (lookup p.name provider.pipelines)) [
      | inl missing ↦ absurd (ground arith)
      | inr (s, held) ↦ (
        insert p.ph provider net,
        rw (call, found, check_found provider p.name s held) refl,
        λ ph. grind (
          arith,
          handle_eq.same_iff p.ph ph,
          lookup-insert {K = ProviderHandle} {V = Provider B J},
        ),
      )
    ]
  ]

  still_exist :
      (a b : Network B J) (ps : List PipelineHandleImpl)
      → SameProviders a b
      → All (λ p. exists_at b p ≡ true) ps
      → All (λ p. exists_at a p ≡ true) ps
  still_exist a b [] same h = tt
  still_exist a b (p ∷ ps) same h = (rw (exists_at, same p.ph) h.0, still_exist a b ps same h.1)

  module _ (client : Client) (provider_id : ℕ) (name : String) where
    load_member_checked :
        (net : Network B J) (i k : ℕ) (m : Member) (written : List ℕ)
        (before : List PipelineHandleImpl)
        → length written ≡ i * 256
        → IsReachable client m
        → exists_at net (pipeline_at client provider_id name m.address) ≡ true
        → (after : Network B J) × (load_member backend host client net i m provider_id name true
              (written ++ zeros (256 + k), before)
            ≡ (
              after,
              [],
              some (
                  ok (
                    written ++ (slot m.address ++ zeros k),
                    before ++ pipeline_at client provider_id name m.address ∷ [],
                  )),
            ))
          × SameProviders after net
    unfolding load_member loaded_one make_pipeline_handle
    load_member_checked net i k m written before at (id, addr, fits, found) h =
        let (after, answer, same) =
          checked-exists_at net (pipeline_at client provider_id name m.address) h in
        (
          after,
          rw (id, addr, copy_address-slots written i k m.address at fits, found, answer) refl,
          same,
        )

    load_members_checked :
        (net : Network B J) (i : ℕ) (members : List Member) (written : List ℕ)
        (before : List PipelineHandleImpl)
        → length written ≡ i * 256
        → All (IsReachable client) members
        → All
            (λ p. exists_at net p ≡ true)
            (map (pipeline_at client provider_id name) (addresses members))
        → (after : Network B J) × (load_members backend host client net i members provider_id name
              true
              (written ++ zeros (length members * 256), before)
            ≡ (
              after,
              [],
              some (
                  ok (
                    written ++ slots (addresses members),
                    before ++ map (pipeline_at client provider_id name) (addresses members),
                  )),
            ))
          × SameProviders after net
    unfolding load_members and_then
    load_members_checked net i [] written before at reachable h =
        (net, rw (append-nil before) refl, λ ph. refl)
    load_members_checked net i (m ∷ members) written before at (here, others) (exists, more) =
        let spare : length (m ∷ members) * 256 ≡ 256 + length members * 256 = omega arith in
        let next : length (written ++ slot m.address) ≡ (i + 1) * 256 =
          omega (arith, length-append written (slot m.address), length-slot m.address here.2) in
        let (first, loaded, same) =
          load_member_checked net i (length members * 256) m written before at here exists in
        let (after, later, same') =
          load_members_checked first (i + 1) members (written ++ slot m.address)
            (before ++ pipeline_at client provider_id name m.address ∷ []) next others
            (still_exist first net _ same more) in
        (
          after,
          rw
              (
                spare,
                loaded,
                sym (append_assoc written (slot m.address) (zeros (length members * 256))),
                later,
                append_assoc written (slot m.address) (slots (addresses members)),
                append_assoc before (pipeline_at client provider_id name m.address ∷ [])
                    (map (pipeline_at client provider_id name) (addresses members)),
              )
              refl,
          λ ph. same' ph ∙ same ph,
        )

    -- The handle that rank 0 makes, where every provider has the pipeline.
    pub connect_checked :
        (net : Network B J) (view : View) (ssg_file : String)
        → view.loads ≡ true
        → view.observes ≡ true
        → view.has_size ≡ true
        → All (IsReachable client) view.members
        → All
            (λ p. exists_at net p ≡ true)
            (map (pipeline_at client provider_id name) (addresses view.members))
        → let connected = connect backend host client net view ssg_file provider_id name true in
          SameProviders connected.0 net
          × (connected.2
              ≡ some (
                  ok (
                    new_impl name
                      (some (map (λ m. m.id) view.members))
                      ssg_file
                      provider_id
                      (map (pipeline_at client provider_id name) (addresses view.members)))))
    unfolding connect finish_connecting
    connect_checked net view ssg_file file observed sized reachable h =
        let (after, loaded, same) =
          load_members_checked net 0 view.members [] [] refl reachable h in
        (
          λ ph. rw (file, observed, sized, loaded) (same ph),
          rw (file, observed, sized, loaded) refl,
        )

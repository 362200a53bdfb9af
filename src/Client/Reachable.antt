-- ===== src/Client/Reachable.antt =====
-- src/Client.cpp: a handle to the pipelines of a group whose members can all be reached.
use mochi_colza.Base.{
  ℕ, ◌+◌, ◌*◌, ◌≡◌, refl, sym, String, true, false, none, some, List, [], ◌∷◌, ◌++◌, map, arith,
  length, All, length-append,
}
use mathlib.Core.List.{append_assoc, append-nil}
use mochi_colza.Result.{ok}
use mochi_colza.Backend.{Backend}
use mochi_colza.Provider.Pipelines.{Host}
use mochi_colza.Client.Addresses.{zeros, slot, slots, Fits, copy_address-slots, length-slot}
use mochi_colza.Client.Network.{Network}
use mochi_colza.Client.PipelineHandle.{PipelineHandleImpl}
use mochi_colza.Client.Connect.{
  Client, Member, View, new_impl, pipeline_at, load_member, load_members, loaded_one,
  make_pipeline_handle, finish_connecting, connect, and_then,
}
use mochi_colza.Client.Connected.{addresses}

-- SSG gives the id and the address of the member, the address fits in a slot, and thallium finds
-- it.
abbrev pub IsReachable : Client → Member → Type 0
IsReachable client m =
    (m.id_status ≡ none)
    × (m.addr_status ≡ none)
    × Fits m.address
    × (client.lookup_finds m.address ≡ true)

module _ {B J : Type 0} (backend : Backend B) (host : Host B J) (client : Client) (provider_id : ℕ)
    (name : String) (net : Network B J) where
  load_member-IsReachable :
      (i k : ℕ) (m : Member) (written : List ℕ) (before : List PipelineHandleImpl)
      → length written ≡ i * 256
      → IsReachable client m
      → load_member backend host client net i m provider_id name false
          (written ++ zeros (256 + k), before)
        ≡ (
          net,
          [],
          some (
              ok (
                written ++ (slot m.address ++ zeros k),
                before ++ pipeline_at client provider_id name m.address ∷ [],
              )),
        )
  unfolding load_member loaded_one make_pipeline_handle
  load_member-IsReachable i k m written before at (id, addr, fits, found) =
      rw (id, addr, copy_address-slots written i k m.address at fits, found) refl

  load_members-IsReachable :
      (i : ℕ) (members : List Member) (written : List ℕ) (before : List PipelineHandleImpl)
      → length written ≡ i * 256
      → All (IsReachable client) members
      → load_members backend host client net i members provider_id name false
          (written ++ zeros (length members * 256), before)
        ≡ (
          net,
          [],
          some (
              ok (
                written ++ slots (addresses members),
                before ++ map (pipeline_at client provider_id name) (addresses members),
              )),
        )
  unfolding load_members and_then
  load_members-IsReachable i [] written before at reachable = rw (append-nil before) refl
  load_members-IsReachable i (m ∷ members) written before at (here, others) =
      let spare : length (m ∷ members) * 256 ≡ 256 + length members * 256 = omega arith in
      let next : length (written ++ slot m.address) ≡ (i + 1) * 256 =
        omega (arith, length-append written (slot m.address), length-slot m.address here.2) in
      let later =
        load_members-IsReachable (i + 1) members (written ++ slot m.address)
          (before ++ pipeline_at client provider_id name m.address ∷ []) next others in
      let first = load_member-IsReachable i (length members * 256) m written before at here in
      rw
        (
          spare,
          first,
          sym (append_assoc written (slot m.address) (zeros (length members * 256))),
          later,
          append_assoc written (slot m.address) (slots (addresses members)),
          append_assoc before (pipeline_at client provider_id name m.address ∷ [])
              (map (pipeline_at client provider_id name) (addresses members)),
        )
        refl

  -- The handle that rank 0 makes, without asking the providers.
  pub connect-IsReachable :
      (view : View) (ssg_file : String)
      → view.loads ≡ true
      → view.observes ≡ true
      → view.has_size ≡ true
      → All (IsReachable client) view.members
      → let connected = connect backend host client net view ssg_file provider_id name false in
        (connected.0 ≡ net)
        × (connected.2
            ≡ some (
                ok (
                  new_impl name
                    (some (map (λ m. m.id) view.members))
                    ssg_file
                    provider_id
                    (map (pipeline_at client provider_id name) (addresses view.members)))))
  unfolding connect finish_connecting
  connect-IsReachable view ssg_file file observed sized reachable =
      let loaded = load_members-IsReachable 0 view.members [] [] refl reachable in
      (rw (file, observed, sized, loaded) refl, rw (file, observed, sized, loaded) refl)

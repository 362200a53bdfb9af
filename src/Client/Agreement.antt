-- ===== src/Client/Agreement.antt =====
-- src/Client.cpp: the ranks of a group of clients make the same handle, or all raise an error.
use mochi_colza.Base.{
  ℕ, ◌≡◌, refl, String, Bool, true, none, some, List, [], ◌∷◌, ◌++◌, map, length, All,
}
use mochi_colza.Result.{ok}
use mochi_colza.Backend.{Backend}
use mochi_colza.Provider.Pipelines.{Host}
use mochi_colza.Client.Addresses.{Address, slots, Fits, unpack-slots}
use mochi_colza.Client.Network.{Network}
use mochi_colza.Client.Connect.{
  Client, View, Broadcast, sent_size, sent_addresses, DistributedImpl, new_impl, pipeline_at,
  connect,
}
use mochi_colza.Client.Following.{followed, finish_following, follow}
use mochi_colza.Client.Connected.{addresses, make_unchecked-All, connected_ok}

-- The other ranks read the addresses that were packed.
follow_packed :
    (client : Client) (ssg_group_file : String) (provider_id : ℕ) (name : String)
    (packed : List Address) (later : List Broadcast)
    → All Fits packed
    → All (λ a. client.lookup_finds a ≡ true) packed
    → follow client ssg_group_file provider_id name
        (sent_size (length packed) ∷ sent_addresses (slots packed) ∷ later)
      ≡ followed
          (new_impl name none ssg_group_file provider_id
            (map (pipeline_at client provider_id name) packed))
          later
unfolding follow finish_following
follow_packed client ssg_group_file provider_id name packed later fits found =
    rw (unpack-slots [] 0 packed refl fits, make_unchecked-All client provider_id name packed found)
      refl

module _ {B J : Type 0} (backend : Backend B) (host : Host B J) (client : Client) (provider_id : ℕ)
    (name : String) (check : Bool) where
  -- If rank 0 makes its handle, its servers' addresses fit in their slots and the other ranks can
  -- look them up, then every other rank reads exactly the broadcasts of rank 0 and makes a handle to
  -- the same pipelines: of the same name, at the same addresses in the same order.
  pub follow-connect :
      (net : Network B J) (view : View) (ssg_group_file : String) (other : Client)
      (impl : DistributedImpl) (later : List Broadcast)
      → let connected =
          connect backend host client net view ssg_group_file provider_id name check in
        connected.2 ≡ some (ok impl)
        → All Fits (addresses view.members)
        → All (λ a. other.lookup_finds a ≡ true) (addresses view.members)
        → (impl.pipelines ≡ map (pipeline_at client provider_id name) (addresses view.members))
          × (follow other ssg_group_file provider_id name (connected.1 ++ later)
              ≡ followed
                  (new_impl name none ssg_group_file provider_id
                    (map (pipeline_at other provider_id name) (addresses view.members)))
                  later)
  follow-connect net view ssg_group_file other impl later made fits found =
      let (pipelines_are, sent) =
        connected_ok backend host client provider_id name check net view ssg_group_file impl made
          fits in
      (
        pipelines_are,
        rw sent (
            follow_packed other ssg_group_file provider_id name (addresses view.members) later fits
              found),
      )

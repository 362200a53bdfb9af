-- ===== src/Client/Raising.antt =====
-- src/Client.cpp: what the other ranks see of makeDistributedPipelineHandle where rank 0 raises.
use mochi_colza.Base.{
  ℕ, ◌*◌, ◌≡◌, refl, String, ◌<>◌, Bool, true, false, ◌&&◌, ◌||◌, some, [], ◌∷◌, arith, ◌⊎◌, inl,
  inr, Bool-cases, length, not, sym,
}
use mochi_colza.Result.{throw, exception, ssg_error}
use mochi_colza.Backend.{Backend}
use mochi_colza.Provider.Pipelines.{Host}
use mochi_colza.Client.Addresses.{zeros}
use mochi_colza.Client.Network.{Network}
use mochi_colza.Client.Connect.{
  Client, View, sent_failure, load_members, and_then, finish_connecting, connect,
}
use mochi_colza.Client.Following.{raises, blocked, follow}
use mochi_colza.Client.Stopping.{
  has_raised, all_described, has_group, Stops, and_then_raised, load_members_raised,
}

module _ {B J : Type 0} (backend : Backend B) (host : Host B J) (client : Client) (provider_id : ℕ)
    (name : String) (check : Bool) where
  connect_without_group :
      (net : Network B J) (view : View) (ssg_group_file : String)
      → has_group view ≡ false
      → let connected =
          connect backend host client net view ssg_group_file provider_id name check in
        (connected.1 ≡ [])
        × ((text : String) × (connected.2 ≡ some (throw (exception ssg_error text))))
  unfolding connect
  connect_without_group net view ssg_group_file h = elim (Bool-cases view.loads) [
    | inr no_file ↦
        (rw no_file refl, ("Could not open SSG group file " <> ssg_group_file, rw no_file refl))
    | inl file ↦ elim (Bool-cases view.observes) [
      | inr blind ↦ (
        rw (file, blind) refl,
        ("Could not observe the SSG group from file " <> ssg_group_file, rw (file, blind) refl),
      )
      | inl observed ↦
          let no_size : view.has_size ≡ false = ground arith in
          (
            rw (file, observed, no_size) refl,
            ("Could not get group size", rw (file, observed, no_size) refl),
          )
    ]
  ]

  connect_with_group :
      (net : Network B J) (view : View) (ssg_group_file : String)
      → has_group view ≡ true
      → connect backend host client net view ssg_group_file provider_id name check
        ≡ and_then
            (load_members backend host client net 0 view.members provider_id name check
              (zeros (length view.members * 256), []))
            (finish_connecting backend host client view ssg_group_file provider_id name)
  unfolding connect
  connect_with_group net view ssg_group_file h =
      let file : view.loads ≡ true = ground arith in
      let observed : view.observes ≡ true = ground arith in
      let sized : view.has_size ≡ true = ground arith in rw (file, observed, sized) refl

  connect-Stops :
      (net : Network B J) (view : View) (ssg_group_file : String)
      → has_group view ≡ true
      → let connected =
          connect backend host client net view ssg_group_file provider_id name check in
        has_raised connected.2 ≡ true → Stops (all_described view.members) connected
  unfolding finish_connecting
  connect-Stops net view ssg_group_file h e =
      let is = connect_with_group net view ssg_group_file h in
      let loaded =
        load_members backend host client net 0 view.members provider_id name check
          (zeros (length view.members * 256), []) in
      elim (and_then_raised (all_described view.members) loaded
        (finish_connecting backend host client view ssg_group_file provider_id name) (rw (sym is) e)
        (load_members_raised backend host client provider_id name check net 0 view.members
          (zeros (length view.members * 256), []))) [
            | inl stops ↦ rw is stops
            | inr (state, _, never) ↦ absurd (ground arith)
          ]

  -- If rank 0 raises, as it does where SSG cannot load the file, observe the group or tell its size,
  -- then either SSG did not tell all that it was asked, rank 0 raises SSG_ERROR and has broadcast
  -- nothing, and the other ranks wait for the group size for ever; or SSG gave the group, rank 0 has
  -- broadcast -1 and nothing else, and the other ranks raise SSG_ERROR.
  pub connect_raised :
      (net : Network B J) (view : View) (ssg_group_file : String) (other : Client)
      → let connected =
          connect backend host client net view ssg_group_file provider_id name check in
        (has_raised connected.2 || not (has_group view)) ≡ true
        → (((has_group view && all_described view.members) ≡ false)
            × (connected.1 ≡ [])
            × ((text : String) × (connected.2 ≡ some (throw (exception ssg_error text))))
            × (follow other ssg_group_file provider_id name connected.1 ≡ blocked))
          ⊎ ((has_group view ≡ true)
              × (connected.1 ≡ sent_failure ∷ [])
              × (has_raised connected.2 ≡ true)
              × (follow other ssg_group_file provider_id name connected.1
                  ≡ raises
                      (throw (exception ssg_error "Master client could not resolve pipeline"))))
  unfolding follow
  connect_raised net view ssg_group_file other h = elim (Bool-cases (has_group view)) [
    | inr no_group ↦
        let (silent, raised) = connect_without_group net view ssg_group_file no_group in
        inl (ground arith, silent, raised, rw silent refl)
    | inl group ↦
        let stopped : has_raised
              (connect backend host client net view ssg_group_file provider_id name check).2
            ≡ true =
          ground arith in
        elim (connect-Stops net view ssg_group_file group stopped) [
          | inl (unknown, silent, raised) ↦ inl (ground arith, silent, raised, rw silent refl)
          | inr told ↦ inr (group, told, stopped, rw told refl)
        ]
  ]

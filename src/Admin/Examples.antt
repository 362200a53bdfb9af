-- ===== src/Admin/Examples.antt =====
-- The operations of an administrator at a system of one server.
use mochi_colza.Base.{
  ◌≡◌, refl, String, Bool, true, false, ◌||◌, arith, List, [], ◌∷◌, ℤ, pos, negsuc, All, nat_eq,
  string_eq,
}
use mochi_colza.Base.Map.{lookup, insert}
use mochi_colza.Dummy.Pipeline
use mochi_colza.Provider.Pipelines
use mochi_colza.Provider.Requests
use mochi_colza.Provider.Samples.{Pipe, backend, host, empty_provider}
use mochi_colza.Client.Addresses.{Address}
use mochi_colza.Client.Network.{Network, handle_eq, same_address, same_address_iff}
use mochi_colza.Result.{Outcome, ok}
use mochi_colza.Client.Connect.{Member}
use mochi_colza.Client.Samples.{ph, view, member}
use mochi_colza.Admin.Operations.{
  Engine, Creating, server_of, create_distributed_pipeline, make_servers_leave, deliver,
}
use mochi_colza.Admin.Everywhere.{HasFresh, create_distributed_pipeline-HasFresh}
use mochi_colza.Admin.Shutdown.{shutdown_group, shutdown_group-IsStopping}
use mochi_colza.Admin.Departures.{has_left, make_servers_leave_left}

abbrev engine : Engine
engine = record { lookup_finds = λ a. true; can_send = λ a. true; null_text = [] }

abbrev idle_system : Network Pipe String
idle_system = (ph, empty_provider) ∷ []

abbrev creating : Creating
creating = record { name = "new"; type = "dummy"; config = "{}"; library = ""; token = "" }

create_distributed_pipeline-HasFresh_example :
    All
      (λ (m : Member).
        HasFresh
          (create_distributed_pipeline backend host engine idle_system view "group.ssg" 0
            creating).0
          (server_of engine 0 m)
          "new")
      (member ∷ [])
unfolding create_distributed_pipeline lookup insert Pipelines.create_pipeline Requests.serve
    Pipeline.create
create_distributed_pipeline-HasFresh_example =
    create_distributed_pipeline-HasFresh backend host engine 0 creating idle_system view "group.ssg"
      refl

-- Rank 7 is not a rank of the group, nor is -1.
abbrev ranks : List ℤ
ranks = pos 7 ∷ negsuc 0 ∷ pos 0 ∷ []

make_servers_leave_left_example :
    has_left (deliver (ph ∷ []) idle_system) (server_of engine 0 member) ≡ true
unfolding make_servers_leave lookup
make_servers_leave_left_example =
    make_servers_leave_left engine idle_system view "group.ssg" ranks 0 2 (pos 0) member (ph ∷ [])
      refl refl refl refl refl (refl, tt)

-- The addresses of the engines that were told to finalize.
abbrev shutdown : List Address → Address → List Address × Outcome Unit
shutdown told a = (a ∷ told, ok tt)

abbrev has_told : Address → List Address → Bool
has_told a [] = false
has_told a (b ∷ told) = same_address b a || has_told a told

shutdown_group-IsStopping_example :
    All
      (λ (m : Member).
        has_told m.address (shutdown_group engine shutdown [] view "group.ssg").0 ≡ true)
      (member ∷ [])
unfolding shutdown_group
shutdown_group-IsStopping_example =
    shutdown_group-IsStopping engine shutdown (λ told a. has_told a told ≡ true)
      (λ told a e. ground (arith, same_address_iff a a)) (λ told a b h. ground (arith, h)) [] view
      "group.ssg" refl refl

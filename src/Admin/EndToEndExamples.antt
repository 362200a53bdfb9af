-- ===== src/Admin/EndToEndExamples.antt =====
-- An administrator and a client at a system of one server.
use mochi_colza.Base.{ℕ, ◌≡◌, refl, String, true, false, [], ◌∷◌, arith, nat_eq, string_eq}
use mochi_colza.Base.Map.{lookup, insert}
use mochi_colza.Group.{compute_group_hash}
use mochi_colza.Backend.{Bulk}
use mochi_colza.Provider.Pipelines
use mochi_colza.Provider.Requests
use mochi_colza.Provider.Phases.{idle}
use mochi_colza.Client.Network.{Network, handle_eq}
use mochi_colza.Client.Connect.{DistributedImpl}
use mochi_colza.Client.Samples.{rank0, pipeline, view, server-Fits}
use mochi_colza.Client.Counter.{counter, counter-IsWilling, host, empty_server}
use mochi_colza.Client.Serving.{AllAt}
use mochi_colza.Client.Program.{Options, completes, run_client}
use mochi_colza.Admin.Operations.{Engine, Creating, create_distributed_pipeline}
use mochi_colza.Admin.EndToEnd.{create_then_run}

abbrev engine : Engine
engine = record { lookup_finds = λ a. true; can_send = λ a. true; null_text = [] }

abbrev creating : Creating
creating = record { name = "new"; type = "counter"; config = "{}"; library = ""; token = "" }

abbrev expose : ℕ → ℕ → Bulk
expose memory size = record { size = size; handle = memory }

abbrev options : Options
options = record { no_stage = false; no_exec = false }

-- Three iterations.
create_then_run_example :
    (after : Network ℕ String) × (self : DistributedImpl) × (run_client counter host rank0 expose
        options 1
        (λ i. [])
        3
        (create_distributed_pipeline counter host engine empty_server view "group.ssg" 0 creating).0
        view
        "group.ssg"
        "new"
      ≡ completes after self)
    × AllAt after 12 (idle 2) (pipeline "c0" "new" ∷ [])
unfolding compute_group_hash create_distributed_pipeline Pipelines.create_pipeline Requests.serve
    lookup insert
create_then_run_example =
    create_then_run counter host rank0 expose options 1 (λ i. []) counter-IsWilling engine creating
      empty_server view "group.ssg" 2 (refl, refl, refl, ((refl, refl, server-Fits, refl), tt))
      (tt, tt) (λ e. absurd (ground arith)) (refl, tt) refl

-- ===== src/Client/RetryExamples.antt =====
-- A start at two servers, of which one has the new hash of the group already.
use mochi_colza.Base.{ℕ, ◌≡◌, refl, inl, String, true, [], ◌∷◌, arith, nat_eq, string_eq}
use mochi_colza.Base.Map.{lookup, map_values, lookup-map_values}
use mochi_colza.Result.{fresh}
use mochi_colza.Group.{compute_group_hash}
use mochi_colza.Provider.State.{Provider}
use mochi_colza.Client.Addresses.{Address, Fits}
use mochi_colza.Client.Network.{ProviderHandle, Network, handle_eq}
use mochi_colza.Client.PipelineHandle.{PipelineHandleImpl}
use mochi_colza.Client.Connect.{DistributedImpl, View}
use mochi_colza.Client.Samples.{ph, rank0, member, pipeline, handle, server-Fits}
use mochi_colza.Client.Counter.{counter, host, idle_provider}
use mochi_colza.Client.Start.{Refresh, start_loop}
use mochi_colza.Client.Startable.{is_startable_at}
use mochi_colza.Client.Retrying.{IsBelow}
use mochi_colza.Client.Refreshed.{Succeeds, start_after_retry}

abbrev server2 : Address
server2 = b's' ∷ b'2' ∷ []

abbrev pipeline2 : PipelineHandleImpl
pipeline2 = record (pipeline "c0" "new") { ph = record { address = server2; provider_id = 0 } }

server2-Fits : Fits server2
server2-Fits =
    (((λ e. absurd (omega (arith, e))), ((λ e. absurd (omega (arith, e))), tt)), omega arith)

-- The hash of the first server is 5, that of the second 12.
abbrev two_servers : Network ℕ String
two_servers =
    (ph, record idle_provider { group_hash = 5 })
    ∷ (record { address = server2; provider_id = 0 }, idle_provider)
    ∷ []

abbrev self : DistributedImpl
self = record (handle "c0" "new" 5) { pipelines = pipeline "c0" "new" ∷ pipeline2 ∷ [] }

-- The members 5 and 9.
abbrev both : View
both = record {
  loads = true;
  observes = true;
  has_size = true;
  members = record member { id = 5 } ∷ record member { id = 9; address = server2 } ∷ [];
}

-- Meanwhile every provider gets the hash 12.
abbrev informed : Provider ℕ String → Provider ℕ String
informed p = record p { group_hash = 12 }

abbrev refresh : Refresh ℕ String
refresh = record { environment = map_values informed; view = both }

informed-startable :
    (net : Network ℕ String) (q : PipelineHandleImpl)
    → IsBelow net q 3
    → is_startable_at counter 12 3 (map_values informed net) q ≡ true
unfolding fresh
informed-startable net q (k, at, le) =
    grind (arith, lookup-map_values {K = ProviderHandle} informed q.ph net)

start_after_retry_example :
    Succeeds (start_loop counter host rank0 (refresh ∷ []) two_servers self 3) 3 self.pipelines
unfolding lookup compute_group_hash
start_after_retry_example =
    start_after_retry counter host rank0 refresh [] two_servers self 3 (ground arith) (ground arith)
      (refl, (refl, tt)) refl
      (
        refl,
        refl,
        refl,
        ((refl, refl, server-Fits, refl), ((refl, refl, server2-Fits, refl), tt)),
        ((refl, tt), (tt, tt)),
      )
      (λ now kept. (
        informed-startable now (pipeline "c0" "new")
            (kept (pipeline "c0" "new") (0, refl, inl refl)),
        (informed-startable now pipeline2 (kept pipeline2 (0, refl, inl refl)), tt),
      ))

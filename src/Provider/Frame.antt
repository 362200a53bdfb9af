-- ===== src/Provider/Frame.antt =====
-- src/ProviderImpl.hpp: what requests leave alone.
use mochi_colza.Base.{◌≡◌, ◌≢◌, arith, String, nat_eq, string_eq}
use mochi_colza.Base.Map.{lookup, lookup-insert_ne, lookup-erase_ne}
use mochi_colza.Backend.{Backend}
use mochi_colza.Provider.State.{Provider}
use mochi_colza.Provider.Pipelines.{Host, create_pipeline, destroy_pipeline, check_pipeline, report}
use mochi_colza.Provider.Iterations
use mochi_colza.Provider.Requests.{
  Request, create, destroy, check, start, stage, execute, cleanup, abort, serve, target,
}

module _ {B J : Type 0} (backend : Backend B) (host : Host B J) (p : Provider B J) where
  -- A request does not touch a pipeline that it does not name: neither the fields that the provider
  -- keeps of it, nor its backend.
  pub serve_elsewhere :
      (r : Request) (j : String)
      → target r ≢ j
      → lookup j (serve backend host p r).0.pipelines ≡ lookup j p.pipelines
  unfolding serve create_pipeline report destroy_pipeline check_pipeline Iterations.start
      Iterations.stage Iterations.execute Iterations.cleanup Iterations.abort
  serve_elsewhere (create token name type config library) j h = grind (arith, lookup-insert_ne)
  serve_elsewhere (destroy token name) j h = grind (arith, lookup-erase_ne)
  serve_elsewhere (check name) j h = grind arith
  serve_elsewhere (start hash name i) j h = grind (arith, lookup-insert_ne)
  serve_elsewhere (stage name args) j h = grind (arith, lookup-insert_ne)
  serve_elsewhere (execute name i auto_cleanup) j h = grind (arith, lookup-insert_ne)
  serve_elsewhere (cleanup name i) j h = grind (arith, lookup-insert_ne)
  serve_elsewhere (abort name i) j h = grind (arith, lookup-insert_ne)

  -- No request changes the hash of the group.
  pub serve-group_hash : (r : Request) → (serve backend host p r).0.group_hash ≡ p.group_hash
  unfolding serve create_pipeline report destroy_pipeline check_pipeline Iterations.start
      Iterations.stage Iterations.execute Iterations.cleanup Iterations.abort
  serve-group_hash (create token name type config library) = grind arith
  serve-group_hash (destroy token name) = grind arith
  serve-group_hash (check name) = grind arith
  serve-group_hash (start hash name i) = grind arith
  serve-group_hash (stage name args) = grind arith
  serve-group_hash (execute name i auto_cleanup) = grind arith
  serve-group_hash (cleanup name i) = grind arith
  serve-group_hash (abort name i) = grind arith

-- ===== src/Provider/Pipelines.antt =====
-- src/ProviderImpl.hpp: the handlers `createPipeline`, `destroyPipeline` and `checkPipeline`.
use mochi_colza.Base.{string_eq, String, ◌<>◌, false, Option, none, some, ◌==◌, if◌then◌else◌}
use mochi_colza.Base.Map.{lookup, insert, erase}
use mochi_colza.Base.OrderedMap.{values}
use mochi_colza.Result.{
  Exception, exception, refuse, fresh, invalid_library, pipeline_create_error, other_error,
  invalid_security_token, json_parse_error, invalid_pipeline_name, pipeline_is_active,
}
use mochi_colza.Backend.{
  Backend, Registry, Creation, created, null_ptr, threw, threw_std, factory_create,
}
use mochi_colza.Provider.State.{Provider, Response, find_pipeline, rejects_token}

-- `dlopen` runs the initialisers of the library, which may register backends; or `dlerror` has a
-- text.
pub data Loading (B J : Type 0) : Type 0 where
  loaded : Registry B J → Loading B J
  not_loaded : String → Loading B J

-- `json::parse`: a value, or the text of a `parse_error`.
pub data Parsing (J : Type 0) : Type 0 where
  parsed : J → Parsing J
  parse_error : String → Parsing J

-- What the provider calls of the dynamic loader and of the JSON library.
pub record Host (B J : Type 0) : Type 0 where
  pub dlopen : String → Registry B J → Loading B J
  pub parse : String → Parsing J
  pub null : J

module _ {B J : Type 0} where
  -- The `catch` clause of `createPipeline`, and the response of a success.
  unfoldable pub report : Provider B J × Option Exception → Response B J
  unfolding fresh
  report (p, none) = (p, fresh)
  report (p, some e) = (p, record { success = false; error = e.what; value = e.code })

module _ {B J : Type 0} (host : Host B J) where
  unfoldable pub load_library : Provider B J → String → Loading B J
  load_library p library =
      if library == "" then loaded p.create_fn else host.dlopen library p.create_fn

  unfoldable pub parse_config : String → Parsing J
  parse_config pipeline_config =
      if pipeline_config == "" then parsed host.null else host.parse pipeline_config

module _ {B J : Type 0} (backend : Backend B) where
  -- The last part of `_createPipeline`: the new backend is told of the addresses, and its state
  -- takes the place that the name has in the map.
  unfoldable pub install : Provider B J → String → B → Provider B J
  install p name b = record p {
    pipelines =
        insert name
          (record {
            pipeline = backend.update_mona_addresses (values p.mona_addresses) b;
            active = false;
            iteration = 0;
          })
          p.pipelines;
  }

  -- The factory's answer.
  unfoldable pub finish_creation :
      Provider B J → String → String → Creation B → Provider B J × Option Exception
  unfolding install
  finish_creation p name type (created b) = (install p name b, none)
  finish_creation p name type null_ptr =
      (p, some (exception pipeline_create_error ("Unknown pipeline type " <> type)))
  finish_creation p name type (threw e) = (p, some e)
  finish_creation p name type (threw_std what) = (p, some (exception other_error what))

  unfoldable pub destroy_pipeline : Provider B J → String → String → Response B J
  destroy_pipeline p token pipeline_name =
      if rejects_token p token
      then (p, refuse invalid_security_token "Invalid security token")
      else elim (lookup pipeline_name p.pipelines) [
        | none ↦ (p, refuse invalid_pipeline_name ("Pipeline " <> (pipeline_name <> " not found")))
        | some state ↦
            if state.active
            then (p, refuse pipeline_is_active "Cannot destroy a pipeline while active")
            else (
              record p { pipelines = erase pipeline_name p.pipelines },
              (backend.destroy state.pipeline).1,
            )
      ]

module _ {B J : Type 0} (backend : Backend B) (host : Host B J) where
  -- The factory is asked once the library is there.
  unfoldable pub finish_loading :
      Provider B J → String → String → J → Loading B J → Provider B J × Option Exception
  unfolding finish_creation factory_create
  finish_loading p name type config (not_loaded message) =
      (p, some (exception invalid_library message))
  finish_loading p name type config (loaded create_fn) =
      finish_creation backend (record p { create_fn = create_fn }) name type
        (factory_create create_fn type (record { gid = p.gid; config = config }))

  -- `_createPipeline`: the state, and the exception that it throws.
  unfoldable pub create_pipeline_impl :
      Provider B J → String → String → J → String → Provider B J × Option Exception
  unfolding load_library finish_loading
  create_pipeline_impl p name type config library =
      finish_loading p name type config (load_library host p library)

  unfoldable pub create_pipeline :
      Provider B J → String → String → String → String → String → Response B J
  unfolding parse_config report create_pipeline_impl
  create_pipeline p token pipeline_name pipeline_type pipeline_config library =
      if rejects_token p token
      then (p, refuse invalid_security_token "Invalid security token")
      else elim (parse_config host pipeline_config) [
        | parse_error message ↦ (p, refuse json_parse_error message)
        | parsed config ↦ report (create_pipeline_impl p pipeline_name pipeline_type config library)
      ]

unfoldable pub check_pipeline : {B J : Type 0} → Provider B J → String → Response B J
unfolding fresh
check_pipeline p pipeline_name = find_pipeline p pipeline_name λ state. (p, fresh)

-- ===== src/Provider/Config.antt =====
-- src/ProviderImpl.hpp: `processConfig`, which the constructors of src/Provider.cpp call on a new
-- provider.
use mochi_colza.Base.{
  String, ◌<>◌, Bool, Option, none, some, List, [], ◌∷◌, ◌==◌, if◌then◌else◌, string_eq,
}
use mochi_colza.Result.{
  Exception, exception, Outcome, ok, throw, throw_std, ◌>>=◌, json_parse_error, json_config_error,
}
use mochi_colza.Backend.{Backend}
use mochi_colza.Provider.State.{Provider}
use mochi_colza.Provider.Pipelines.{Host, parsed, parse_error, create_pipeline_impl}

-- What the function calls on a `json` value: `find`, `is_object`, `items`, and the conversion to
-- `std::string`, which throws a `type_error` at a value of another kind.
pub record JsonValue (J : Type 0) : Type 0 where
  pub find : String → J → Option J
  pub is_object : J → Bool
  pub items : J → List (String × J)
  pub string_of : J → Outcome String
  pub empty_object : J

-- One entry of the object of pipelines.
pub record Entry (J : Type 0) : Type 0 where
  pub library : String
  pub config : J
  pub type : String

module _ {B J : Type 0} (backend : Backend B) (host : Host B J) (json : JsonValue J) where
  -- `pipeline.value(key, std::string())`
  abbrev pub text_value : J → String → Outcome String
  text_value j key = elim (json.find key j) [ none ↦ ok "" | some v ↦ json.string_of v ]

  -- `pipeline.value("config", json::object())`
  abbrev pub config_value : J → J
  config_value j = elim (json.find "config" j) [ none ↦ json.empty_object | some v ↦ v ]

  -- The part of the loop's body that reads an entry.
  unfoldable pub read_entry : String → J → Outcome (Entry J)
  read_entry name j =
      if json.is_object j
      then (text_value j "library" >>= λ library. text_value j "type" >>= λ type.
          if type == ""
          then throw
              (exception json_config_error ("No type provided for pipeline '" <> (name <> "'")))
          else ok (record { library = library; config = config_value j; type = type }))
      else throw (exception json_config_error ("Pipeline '" <> (name <> "' should be an object")))

  unfoldable pub raise : Option Exception → Outcome Unit
  raise none = ok tt
  raise (some e) = throw e

  -- The rest of the loop's body, and the whole of it. A pipeline that was created before an
  -- exception stays in the map.
  unfoldable pub create_entry :
      Provider B J → String → Outcome (Entry J) → Provider B J × Outcome Unit
  unfolding raise create_pipeline_impl
  create_entry p name (throw e) = (p, throw e)
  create_entry p name (throw_std what) = (p, throw_std what)
  create_entry p name (ok entry) =
      let (q, result) =
        create_pipeline_impl backend host p name entry.type entry.config entry.library in
      (q, raise result)

  unfoldable pub process_entry : Provider B J → String → J → Provider B J × Outcome Unit
  unfolding read_entry create_entry
  process_entry p name j = create_entry p name (read_entry name j)

  -- The next round, unless this one has thrown.
  unfoldable pub proceed :
      Provider B J × Outcome Unit
      → (Provider B J → Provider B J × Outcome Unit)
      → Provider B J × Outcome Unit
  proceed (p, ok _) rest = rest p
  proceed (p, throw e) rest = (p, throw e)
  proceed (p, throw_std what) rest = (p, throw_std what)

  unfoldable pub process_entries : Provider B J → List (String × J) → Provider B J × Outcome Unit
  unfolding process_entry proceed
  process_entries p [] = (p, ok tt)
  process_entries p ((name, j) ∷ rest) =
      proceed (process_entry p name j) λ p. process_entries p rest

  unfoldable pub process_config : Provider B J → String → Provider B J × Outcome Unit
  unfolding process_entries
  process_config p config = if config == "" then (p, ok tt) else elim (host.parse config) [
    | parse_error _ ↦ (p, throw (exception json_parse_error "Could not parse JSON configuration"))
    | parsed json_config ↦ elim (json.find "pipelines" json_config) [
      | none ↦ (p, ok tt)
      | some pipelines ↦
          if json.is_object pipelines
          then process_entries p (json.items pipelines)
          else (p, throw (exception json_config_error "'pipeline' entry should be an object"))
    ]
  ]

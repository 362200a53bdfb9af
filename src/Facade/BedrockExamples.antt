-- ===== src/Facade/BedrockExamples.antt =====
-- The module of Bedrock with a resolver of dependencies.
use mochi_colza.Base.{
  ℕ, ◌≡◌, refl, String, false, none, some, List, [], ◌∷◌, arith, nat_eq, string_eq,
}
use mochi_colza.Base.Map.{lookup}
use mochi_colza.Provider.Samples.{Pipe, backend, host, registry}
use mochi_colza.Facade.Objects.{Process}
use mochi_colza.Facade.Examples.{decimal, ssg, self, mona, json, engine}
use mochi_colza.Facade.Bedrock.{
  Dependency, Resolved, get_provider_dependencies, null, register_provider, declares,
  register_provider-declared,
}

-- One handle for each dependency.
unfoldable resolve : List Dependency → Resolved
resolve [] = []
resolve (d ∷ ds) = (d.name, 1 ∷ []) ∷ resolve ds

resolves_only :
    (name : String) (ds : List Dependency)
    → declares name ds ≡ false
    → lookup name (resolve ds) ≡ none
unfolding lookup resolve
resolves_only name [] h = refl
resolves_only name (d ∷ ds) h = ground (arith, resolves_only name ds)

resolves_full :
    (name : String) (ds : List Dependency) (handles : List ℕ)
    → lookup name (resolve ds) ≡ some handles
    → handles ≡ 1 ∷ []
unfolding lookup resolve
resolves_full name [] handles e = absurd (ground arith)
resolves_full name (d ∷ ds) handles e = grind (arith, resolves_full name ds handles)

abbrev no_object : Process Pipe String
no_object = record { engine = engine; objects = [] }

register_provider-declared_example :
    register_provider backend host json decimal
      (λ gid. ssg)
      (λ instance_. (self, mona))
      3
      no_object
      100
      1
      7
      "{}"
      registry
      (resolve (get_provider_dependencies []))
    ≡ null
register_provider-declared_example =
    register_provider-declared backend host json decimal (λ gid. ssg) (λ instance_. (self, mona)) 3
      no_object 100 1 7 "{}" registry resolve resolves_only
      (λ name ds handles e. (1, [], resolves_full name ds handles e))

-- ===== src/Facade/Bedrock.antt =====
-- src/BedrockModule.cpp: the module by which Bedrock makes and deletes providers.
use mochi_colza.Base.{
  ℕ, ◌≡◌, refl, ap, ◌∙◌, String, Bool, true, false, ◌||◌, Option, none, some, List, [], ◌∷◌, ◌==◌,
  nat_eq, string_eq, ℤ, inl, inr, Option-cases,
}
use mochi_colza.Base.Map.{Map, lookup}
use mochi_colza.Result.{Outcome}
use mochi_colza.Backend.{Backend, Registry}
use mochi_colza.Provider.Pipelines.{Host}
use mochi_colza.Provider.Config.{JsonValue}
use mochi_colza.Provider.Membership.{Mona}
use mochi_colza.Facade.Impl.{Ssg, MonaSelf, construct_impl}
use mochi_colza.Facade.Objects.{Process, construct, destroy}

-- bedrock::Dependency, with BEDROCK_REQUIRED as a flag.
pub record Dependency : Type 0 where
  pub name : String
  pub type : String
  pub is_required : Bool

-- ColzaFactory::getProviderDependencies, from what its static vector holds. The vector holds the
-- result afterwards.
unfoldable pub get_provider_dependencies : List Dependency → List Dependency
get_provider_dependencies [] = record { name = "group"; type = "ssg"; is_required = true } ∷ []
get_provider_dependencies (d ∷ ds) = d ∷ ds

-- args.dependencies: the handles that Bedrock has found for each name.
abbrev pub Resolved : Type 0
Resolved = Map String (List ℕ)

-- What registerProvider does: it returns a null pointer, reads a vector out of its bounds, or makes a
-- provider.
pub data Registered (A : Type 0) : Type 0 where
  null : Registered A
  undefined : Registered A
  makes : A → Registered A

-- A dependency that is looked up, and the rest.
unfoldable pub with_first : {A : Type 0} → Option (List ℕ) → (ℕ → Registered A) → Registered A
with_first none rest = null
with_first (some []) rest = undefined
with_first (some (handle ∷ others)) rest = rest handle

module _ {B J : Type 0} (backend : Backend B) (host : Host B J) (json : JsonValue J)
    (decimal : ℤ → String) (ssg : ℕ → Ssg) (mona : ℕ → MonaSelf × Mona) (fuel : ℕ) where
  -- ColzaFactory::registerProvider, with a provider at the address `this`.
  unfoldable pub register_provider :
      Process B J
      → ℕ
      → ℕ
      → ℕ
      → String
      → Registry B J
      → Resolved
      → Registered (Option (Process B J × Outcome Unit))
  unfolding with_first construct construct_impl
  register_provider w this number provider_id config create_fn dependencies =
      with_first (lookup "group" dependencies) λ gid.
        with_first (lookup "mona" dependencies) λ instance_. makes (
          construct backend host json w this number provider_id config (
            construct_impl decimal (ssg gid) (mona instance_).0 (mona instance_).1 fuel w.engine
              number provider_id create_fn gid false))

-- ColzaFactory::deregisterProvider
unfoldable pub deregister_provider : {B J : Type 0} → Process B J → ℕ → Process B J
unfolding destroy
deregister_provider w this = destroy w this

abbrev pub declares : String → List Dependency → Bool
declares name [] = false
declares name (d ∷ ds) = d.name == name || declares name ds

module _ {B J : Type 0} (backend : Backend B) (host : Host B J) (json : JsonValue J)
    (decimal : ℤ → String) (ssg : ℕ → Ssg) (mona : ℕ → MonaSelf × Mona) (fuel : ℕ) (w : Process B J)
    (this number provider_id : ℕ) (config : String) (create_fn : Registry B J) where
  -- If Bedrock looks for no other dependencies than those that the module declares, and finds a
  -- handle for each that it keeps, then registerProvider returns a null pointer, whenever it is
  -- called with the dependencies that Bedrock found for the declared ones.
  pub register_provider-declared :
      (resolve : List Dependency → Resolved)
      → ((name : String) (ds : List Dependency)
          → declares name ds ≡ false
          → lookup name (resolve ds) ≡ none)
      → ((name : String) (ds : List Dependency) (handles : List ℕ)
          → lookup name (resolve ds) ≡ some handles
          → (h : ℕ) × (more : List ℕ) × (handles ≡ h ∷ more))
      → register_provider backend host json decimal ssg mona fuel w this number provider_id config
          create_fn
          (resolve (get_provider_dependencies []))
        ≡ null
  unfolding register_provider get_provider_dependencies
  register_provider-declared resolve only full =
      let ds = get_provider_dependencies [] in
      let no_mona = only "mona" ds refl in
      elim (Option-cases (lookup "group" (resolve ds))) [
        | inl missing ↦ rw missing refl
        | inr (handles, found) ↦
            let (h, more, is) = full "group" ds handles found in
            rw (found ∙ ap some is, no_mona) refl
      ]

-- ===== src/Provider/Setup.antt =====
-- src/ProviderImpl.hpp: what holds after `processConfig`.
use mochi_colza.Base.{
  ◌≡◌, refl, ap, sym, subst, ◌∙◌, Option, none, some, List, [], ◌∷◌, arith, String, nat_eq,
  string_eq, All,
}
use mochi_colza.Base.Map.{lookup-insert, lookup-insert_self}
use mochi_colza.Result.{Exception, Outcome, ok, throw, throw_std}
use mochi_colza.Backend.{Backend}
use mochi_colza.Provider.State.{PipelineState, Provider}
use mochi_colza.Provider.Pipelines.{Host, create_pipeline_impl}
use mochi_colza.Provider.Config.{
  JsonValue, Entry, read_entry, create_entry, process_entry, proceed, process_entries, raise,
}
use mochi_colza.Provider.Phases.{idle, phase}

-- A pipeline of this name is there, and has not been started.
abbrev pub IsFresh : {B J : Type 0} → Provider B J → String → Type 0
IsFresh p name = phase p name ≡ some (idle 0)

module _ {B J : Type 0} (backend : Backend B) (host : Host B J) (p : Provider B J) where
  pub created-IsFresh :
      (name type library : String) (config : J)
      → (create_pipeline_impl backend host p name type config library).1 ≡ none
      → IsFresh (create_pipeline_impl backend host p name type config library).0 name
  unfolding create_pipeline_impl
  created-IsFresh name type library config e = grind (arith, lookup-insert_self)

  pub stays-IsFresh :
      (name j type library : String) (config : J)
      → IsFresh p j
      → IsFresh (create_pipeline_impl backend host p name type config library).0 j
  unfolding create_pipeline_impl
  stays-IsFresh name j type library config h =
      grind (arith, string_eq.same_iff name j, lookup-insert {K = String} {V = PipelineState B})

module _ {B J : Type 0} (backend : Backend B) (host : Host B J) (json : JsonValue J) where
  create_entry_stays :
      (p : Provider B J) (name j : String) (entry : Outcome (Entry J))
      → IsFresh p j
      → IsFresh (create_entry backend host json p name entry).0 j
  unfolding create_entry
  create_entry_stays p name j (throw e) h = h
  create_entry_stays p name j (throw_std what) h = h
  create_entry_stays p name j (ok entry) h =
      stays-IsFresh backend host p name j entry.type entry.library entry.config h

  entry_stays-IsFresh :
      (p : Provider B J) (name j : String) (config : J)
      → IsFresh p j
      → IsFresh (process_entry backend host json p name config).0 j
  unfolding process_entry
  entry_stays-IsFresh p name j config h =
      create_entry_stays p name j (read_entry backend host json name config) h

  raise-none : (o : Option Exception) → raise backend host json o ≡ ok tt → o ≡ none
  unfolding raise
  raise-none none e = refl
  raise-none (some x) e = absurd (ground arith)

  create_entry-IsFresh :
      (p : Provider B J) (name : String) (entry : Outcome (Entry J))
      → (create_entry backend host json p name entry).1 ≡ ok tt
      → IsFresh (create_entry backend host json p name entry).0 name
  unfolding create_entry
  create_entry-IsFresh p name (throw x) e = absurd (ground arith)
  create_entry-IsFresh p name (throw_std what) e = absurd (ground arith)
  create_entry-IsFresh p name (ok entry) e =
      created-IsFresh backend host p name entry.type entry.library entry.config (raise-none _ e)

  entry-IsFresh :
      (p : Provider B J) (name : String) (config : J)
      → (process_entry backend host json p name config).1 ≡ ok tt
      → IsFresh (process_entry backend host json p name config).0 name
  unfolding process_entry
  entry-IsFresh p name config e =
      create_entry-IsFresh p name (read_entry backend host json name config) e

  proceed_stays :
      (P : Provider B J → Type 0) (r : Provider B J × Outcome Unit)
      (rest : Provider B J → Provider B J × Outcome Unit)
      → P r.0
      → ((q : Provider B J) → P q → P (rest q).0)
      → P (proceed backend host json r rest).0
  unfolding proceed
  proceed_stays P (q, ok x) rest h f = f q h
  proceed_stays P (q, throw e) rest h f = h
  proceed_stays P (q, throw_std what) rest h f = h

  proceed_ok :
      (r : Provider B J × Outcome Unit) (rest : Provider B J → Provider B J × Outcome Unit)
      → (proceed backend host json r rest).1 ≡ ok tt
      → (r.1 ≡ ok tt) × (proceed backend host json r rest ≡ rest r.0)
  unfolding proceed
  proceed_ok (q, ok tt) rest h = (refl, refl)
  proceed_ok (q, throw e) rest h = absurd (ground arith)
  proceed_ok (q, throw_std what) rest h = absurd (ground arith)

  entries_stay-IsFresh :
      (entries : List (String × J)) (p : Provider B J) (j : String)
      → IsFresh p j
      → IsFresh (process_entries backend host json p entries).0 j
  unfolding process_entries
  entries_stay-IsFresh [] p j h = h
  entries_stay-IsFresh ((name, config) ∷ rest) p j h =
      proceed_stays (λ q. IsFresh q j) (process_entry backend host json p name config) _
        (entry_stays-IsFresh p name j config h) (λ q. entries_stay-IsFresh rest q j)

  -- If processConfig comes to its end without an exception, every pipeline of the configuration is
  -- there and has not been started.
  pub configured_pipelines :
      (entries : List (String × J)) (p : Provider B J)
      → (process_entries backend host json p entries).1 ≡ ok tt
      → All
          (λ (e : String × J). IsFresh (process_entries backend host json p entries).0 e.0)
          entries
  unfolding process_entries
  configured_pipelines [] p e = tt
  configured_pipelines ((name, config) ∷ rest) p e =
      let first = process_entry backend host json p name config in
      let (first_ok, same) = proceed_ok first (λ q. process_entries backend host json q rest) e in
      let here = entries_stay-IsFresh rest first.0 name (entry-IsFresh p name config first_ok) in
      let there = configured_pipelines rest first.0 (ap (λ r. r.1) (sym same) ∙ e) in
      subst
        (λ (r : Provider B J × Outcome Unit).
          All (λ (e : String × J). IsFresh r.0 e.0) ((name, config) ∷ rest))
        (sym same) (here, there)

-- ===== src/Provider/Phases.antt =====
-- src/ProviderImpl.hpp: what clients see of a pipeline, and the moves that requests make between
-- the phases. Backends are forgotten.
use mochi_colza.Base.{
  ℕ, ◌<◌, ◌≡◌, ◌⊎◌, inl, inr, Bool, true, false, Option, none, some, arith, String, if◌then◌else◌,
  nat_eq, string_eq,
}
use mochi_colza.Base.Map.{lookup, lookup-insert_self, lookup-erase_self}
use mochi_colza.Backend.{Backend, StageArgs}
use mochi_colza.Provider.State.{PipelineState, Provider, decrement}
use mochi_colza.Provider.Pipelines.{destroy_pipeline, Host, create_pipeline, check_pipeline, report}
use mochi_colza.Provider.Iterations
use mochi_colza.Provider.Iterations.{started, cleaned, executed}
use mochi_colza.Provider.Requests.{
  Request, create, destroy, start, execute, cleanup, abort, check, stage, serve, target,
}

-- `idle n`: the iteration field is n, and no iteration runs. `running n`: iteration n runs.
pub data Phase : Type 0 where
  idle : ℕ → Phase
  running : ℕ → Phase

abbrev pub phase_of : {B : Type 0} → PipelineState B → Phase
phase_of s = if s.active then running s.iteration else idle s.iteration

abbrev pub phase : {B J : Type 0} → Provider B J → String → Option Phase
phase p name = elim (lookup name p.pipelines) [ none ↦ none | some s ↦ some (phase_of s) ]

-- The moves of the pipeline that a request names, `before` and `after` being its phases, and
-- `none` that there is none of that name.
pub data Move (before after : Option Phase) : Request → Type 0 where
  stays : {r : Request} → after ≡ before → Move before after r
  creates :
      {token name type config library : String}
      → after ≡ some (idle 0)
      → Move before after (create token name type config library)
  destroys :
      {token name : String} {n : ℕ}
      → before ≡ some (idle n)
      → after ≡ none
      → Move before after (destroy token name)
  begins :
      {hash n i : ℕ} {name : String}
      → before ≡ some (idle n)
      → (n ≡ 0) ⊎ (n < i)
      → after ≡ some (running i)
      → Move before after (start hash name i)
  completes :
      {i : ℕ} {name : String}
      → before ≡ some (running i)
      → after ≡ some (idle i)
      → Move before after (cleanup name i)
  executes :
      {i : ℕ} {name : String}
      → before ≡ some (running i)
      → after ≡ some (idle i)
      → Move before after (execute name i true)
  aborts :
      {i : ℕ} {name : String}
      → before ≡ some (running i)
      → after ≡ some (idle (decrement i))
      → Move before after (abort name i)

-- The iteration field of the pipeline of a name.
abbrev iteration_at : {B J : Type 0} → Provider B J → String → ℕ
iteration_at p name = elim (lookup name p.pipelines) [ none ↦ 0 | some s ↦ s.iteration ]

module _ {B J : Type 0} (backend : Backend B) (p : Provider B J) (name : String) where
  start_cases :
      (hash i : ℕ)
      → let after = phase (Iterations.start backend p hash name i).0 name in
        let n = iteration_at p name in
        (after ≡ phase p name)
        ⊎ ((phase p name ≡ some (idle n)) × ((n ≡ 0) ⊎ (n < i)) × (after ≡ some (running i)))
  unfolding Iterations.start
  start_cases hash i = grind (arith, lookup-insert_self)

  stage_phase :
      (args : StageArgs) → phase (Iterations.stage backend p name args).0 name ≡ phase p name
  unfolding Iterations.stage
  stage_phase args = grind (arith, lookup-insert_self)

  execute_cases :
      (i : ℕ) (auto_cleanup : Bool)
      → let after = phase (Iterations.execute backend p name i auto_cleanup).0 name in
        (after ≡ phase p name)
        ⊎ ((auto_cleanup ≡ true) × (phase p name ≡ some (running i)) × (after ≡ some (idle i)))
  unfolding Iterations.execute
  execute_cases i auto_cleanup = grind (arith, lookup-insert_self)

  cleanup_cases :
      (i : ℕ)
      → let after = phase (Iterations.cleanup backend p name i).0 name in
        (after ≡ phase p name) ⊎ ((phase p name ≡ some (running i)) × (after ≡ some (idle i)))
  unfolding Iterations.cleanup
  cleanup_cases i = grind (arith, lookup-insert_self)

  abort_cases :
      (i : ℕ)
      → let after = phase (Iterations.abort backend p name i).0 name in
        (after ≡ phase p name)
        ⊎ ((phase p name ≡ some (running i)) × (after ≡ some (idle (decrement i))))
  unfolding Iterations.abort
  abort_cases i = grind (arith, lookup-insert_self)

  destroy_cases :
      (token : String)
      → let after = phase (destroy_pipeline backend p token name).0 name in
        (after ≡ phase p name)
        ⊎ ((phase p name ≡ some (idle (iteration_at p name))) × (after ≡ none))
  unfolding destroy_pipeline
  destroy_cases token = grind (arith, lookup-erase_self)

module _ {B J : Type 0} (backend : Backend B) (host : Host B J) (p : Provider B J)
    (name : String) where
  create_cases :
      (token type config library : String)
      → let after = phase (create_pipeline backend host p token name type config library).0 name in
        (after ≡ phase p name) ⊎ (after ≡ some (idle 0))
  unfolding create_pipeline report
  create_cases token type config library = grind (arith, lookup-insert_self)

module _ {B J : Type 0} (backend : Backend B) (host : Host B J) (p : Provider B J) where
  -- Whatever a request asks for and whatever the backend answers, the pipeline that it names goes
  -- through at most one of the moves of that request.
  pub serve-Move :
      (r : Request) → Move (phase p (target r)) (phase (serve backend host p r).0 (target r)) r
  unfolding serve check_pipeline
  serve-Move (create token name type config library) =
      elim (create_cases backend host p name token type config library) [
        | inl e ↦ stays e
        | inr e ↦ creates e
      ]
  serve-Move (destroy token name) = elim (destroy_cases backend p name token) [
    | inl e ↦ stays e
    | inr (e, f) ↦ destroys e f
  ]
  serve-Move (check name) = stays (ground arith)
  serve-Move (start hash name i) = elim (start_cases backend p name hash i) [
    | inl e ↦ stays e
    | inr (e, g, f) ↦ begins e g f
  ]
  serve-Move (stage name args) = stays (stage_phase backend p name args)
  serve-Move (execute name i true) = elim (execute_cases backend p name i true) [
    | inl e ↦ stays e
    | inr (_, e, f) ↦ executes e f
  ]
  serve-Move (execute name i false) = elim (execute_cases backend p name i false) [
    | inl e ↦ stays e
    | inr (never, _, _) ↦ stays (cc)
  ]
  serve-Move (cleanup name i) = elim (cleanup_cases backend p name i) [
    | inl e ↦ stays e
    | inr (e, f) ↦ completes e f
  ]
  serve-Move (abort name i) = elim (abort_cases backend p name i) [
    | inl e ↦ stays e
    | inr (e, f) ↦ aborts e f
  ]

-- ===== src/Provider/State.antt =====
-- src/ProviderImpl.hpp: the state of a provider. A handler that runs alone takes the state and
-- gives the state that it leaves, with its response; the locks matter only to handlers that
-- overlap.
use mochi_colza.Base.{
  string_eq, ℕ, ◌+◌, ◌-◌, ◌%◌, ◌^◌, String, ◌<>◌, Bool, false, not, none, some, ℤ, ◌==◌,
  if◌then◌else◌,
}
use mochi_colza.Base.Map.{Map, lookup, insert}
use mochi_colza.Result.{RequestResult, refuse, invalid_pipeline_name}
use mochi_colza.Backend.{NaAddr, Registry}
use mochi_colza.Group.{MemberId}

-- The shared object that the map of pipelines points to.
pub record PipelineState (B : Type 0) : Type 0 where
  pub pipeline : B
  pub active : Bool
  pub iteration : ℕ

-- `create_fn` is the static table of `PipelineFactory`, which the whole process shares.
-- `left` and `finalized` say that `ssg_group_leave` and `engine.finalize` were called.
pub record Provider (B J : Type 0) : Type 0 where
  pub token : String
  pub gid : ℕ
  pub group_hash : ℕ
  pub mona_self_addr : String
  pub mona_addresses : Map MemberId NaAddr
  pub pipelines : Map String (PipelineState B)
  pub num_active_pipelines : ℕ
  pub create_fn : Registry B J
  pub left : Bool
  pub finalized : Bool

-- x += 1 and x -= 1 on `uint64_t` and `size_t`
abbrev pub increment : ℕ → ℕ
increment n = (n + 1) % 2 ^ 64

abbrev pub decrement : ℕ → ℕ
decrement n = (n + 2 ^ 64 - 1) % 2 ^ 64

abbrev pub Response : Type 0 → Type 0 → Type 0
Response B J = Provider B J × RequestResult ℤ

module _ {B J : Type 0} where
  -- Writes through the `shared_ptr` that the map holds under the name.
  abbrev pub set_state : Provider B J → String → PipelineState B → Provider B J
  set_state p name state = record p { pipelines = insert name state p.pipelines }

  -- FIND_PIPELINE, with the rest of the handler.
  abbrev pub find_pipeline : Provider B J → String → (PipelineState B → Response B J) → Response B J
  find_pipeline p pipeline_name rest = elim (lookup pipeline_name p.pipelines) [
    | none ↦
        (p, refuse invalid_pipeline_name ("Pipeline with name " <> (pipeline_name <> " not found")))
    | some state ↦ rest state
  ]

  -- `m_token.size() > 0 && m_token != token`
  abbrev pub rejects_token : Provider B J → String → Bool
  rejects_token p token = if p.token == "" then false else not (p.token == token)

-- ===== src/Provider/Shared.antt =====
-- src/ProviderImpl.hpp: what the threads of a provider share, and what may happen to it.
use mochi_colza.Base.{
  string_eq, nat_eq, ℕ, zero, suc, String, Bool, Option, none, some, List, [], ◌∷◌,
}
use mochi_colza.Base.Map.{Map}
use mochi_colza.Backend.{StageArgs}
use mochi_colza.Provider.State.{PipelineState}
use mochi_colza.Group.{MemberId}
use mochi_colza.Backend.{NaAddr}

-- A handler that waits for its backend, with the number of the object that it found.
pub data Task : Type 0 where
  starting : ℕ → ℕ → Task
  staging : ℕ → StageArgs → Task
  executing : ℕ → ℕ → Bool → Task
  cleaning : ℕ → ℕ → Task
  aborting : ℕ → ℕ → Task

-- The number of the object that a task works on.
abbrev pub object : Task → ℕ
object (starting o i) = o
object (staging o args) = o
object (executing o i auto_cleanup) = o
object (cleaning o i) = o
object (aborting o i) = o

-- The members of `ProviderImpl` that these handlers share. `objects` are the `PipelineState`s that
-- were ever made, `names` is `m_pipelines`, whose pointers are numbers of objects.
pub record Shared (B : Type 0) : Type 0 where
  pub group_hash : ℕ
  pub objects : List (PipelineState B)
  pub names : Map String ℕ
  pub num_active_pipelines : ℕ
  pub tasks : List Task
  pub left : Bool
  pub finalized : Bool

-- `install` is the last critical section of `_createPipeline`, with the backend that it has made,
-- `destroy` the one of `destroyPipeline`, and `resume n` the return of the backend to the handler
-- that is n-th in the list. `leave` is the test of the loop of that handler, when it arrives and
-- whenever it wakes up, and the rest of it if the test lets it go on. `change_group` is the change of
-- the hash that a membership update makes at once, `update_addresses` the last critical section of
-- its thread.
pub data Event (B : Type 0) : Type 0 where
  install : String → B → Event B
  destroy : String → Event B
  start : ℕ → String → ℕ → Event B
  stage : String → StageArgs → Event B
  execute : String → ℕ → Bool → Event B
  cleanup : String → ℕ → Event B
  abort : String → ℕ → Event B
  resume : ℕ → Event B
  leave : Event B
  change_group : MemberId → Event B
  update_addresses : List NaAddr → Event B

-- The n-th element, and the others.
unfoldable pub take_out {ℓ} : {A : Type ℓ} → ℕ → List A → Option (A × List A)
take_out n [] = none
take_out zero (x ∷ xs) = some (x, xs)
take_out (suc n) (x ∷ xs) = elim (take_out n xs) [ none ↦ none | some (y, ys) ↦ some (y, x ∷ ys) ]

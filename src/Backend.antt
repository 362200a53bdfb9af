-- ===== src/Backend.antt =====
-- include/colza/Backend.hpp and src/Backend.cpp: the interface of a pipeline backend, and the
-- factory of backends.
use mochi_colza.Base.{string_eq, ℕ, String, List, none, some, ℤ}
use mochi_colza.Base.Map.{Map, lookup, insert}
use mochi_colza.Result.{RequestResult, Exception}
use mochi_colza.Types.{DataType}

-- na_addr_t, a handle of the MoNA library
abbrev pub NaAddr : Type 0
NaAddr = ℕ

-- thallium::bulk: the size of an exposed memory, and the handle by which it is reached.
pub record Bulk : Type 0 where
  pub size : ℕ
  pub handle : ℕ

-- The arguments of `Backend::stage`.
pub record StageArgs : Type 0 where
  pub sender_addr : String
  pub dataset_name : String
  pub iteration : ℕ
  pub block_id : ℕ
  pub dimensions : List ℕ
  pub offsets : List ℤ
  pub type : DataType
  pub bulk : Bulk

-- The virtual functions of `Backend`, over the state `B` of a backend object. A call returns the
-- state that it leaves.
pub record Backend (B : Type 0) : Type 0 where
  pub update_mona_addresses : List NaAddr → B → B
  pub start : ℕ → B → B × RequestResult ℤ
  pub abort : ℕ → B → B
  pub stage : StageArgs → B → B × RequestResult ℤ
  pub execute : ℕ → B → B × RequestResult ℤ
  pub cleanup : ℕ → B → B × RequestResult ℤ
  pub destroy : B → B × RequestResult ℤ

-- `engine`, the third field, is a handle that the backend keeps.
pub record PipelineFactoryArgs (J : Type 0) : Type 0 where
  pub gid : ℕ
  pub config : J

-- What a creation function does: a `unique_ptr` to a backend, a null pointer, or an exception.
pub data Creation (B : Type 0) : Type 0 where
  created : B → Creation B
  null_ptr : Creation B
  threw : Exception → Creation B
  threw_std : String → Creation B

-- PipelineFactory::create_fn
abbrev pub Registry : Type 0 → Type 0 → Type 0
Registry B J = Map String (PipelineFactoryArgs J → Creation B)

module _ {B J : Type 0} where
  -- PipelineFactory::createPipeline
  unfoldable pub factory_create : Registry B J → String → PipelineFactoryArgs J → Creation B
  factory_create create_fn backend_name args = elim (lookup backend_name create_fn) [
    | none ↦ null_ptr
    | some f ↦ f args
  ]

  -- COLZA_REGISTER_BACKEND: what the constructor of `__ColzaBackendRegistration` does.
  unfoldable pub register_backend :
      String → (PipelineFactoryArgs J → Creation B) → Registry B J → Registry B J
  register_backend backend_name create create_fn = insert backend_name create create_fn

-- ===== src/Dummy/Pipeline.antt =====
-- examples/pipeline/DummyBackend.hpp and DummyBackend.cpp: `DummyPipeline`, an instance of the
-- interface of backends.
use mochi_colza.Base.{ℕ, false, none, some, List, [], String, ℤ, pos, nat_eq, string_eq}
use mochi_colza.Base.Map.{erase}
use mochi_colza.Result.{RequestResult, succeed}
use mochi_colza.Backend.{Backend, StageArgs, Bulk, NaAddr, PipelineFactoryArgs, Creation, created}
use mochi_colza.Dummy.Blocks.{DataBlock, Datasets, find_block, put_block}

-- What the engine does for `data.on(origin_ep) >> local_bulk`, the lookup of the sender and the
-- exposing of the local memory included: the bytes, or the text of an exception.
pub data Transfer : Type 0 where
  arrived : List ℕ → Transfer
  broken : String → Transfer

pub record Engine : Type 0 where
  pub pull : String → Bulk → Transfer

pub record DummyPipeline (J : Type 0) : Type 0 where
  pub gid : ℕ
  pub config : J
  pub datasets : Datasets

module _ {J : Type 0} where
  -- DummyPipeline::create, the constructor included
  unfoldable pub create : PipelineFactoryArgs J → Creation (DummyPipeline J)
  create args = created (record { gid = args.gid; config = args.config; datasets = [] })

  unfoldable pub update_mona_addresses : List NaAddr → DummyPipeline J → DummyPipeline J
  update_mona_addresses addresses d = d

  unfoldable pub start : ℕ → DummyPipeline J → DummyPipeline J × RequestResult ℤ
  start iteration d = (d, succeed (pos 0))

  unfoldable pub abort : ℕ → DummyPipeline J → DummyPipeline J
  abort iteration d = d

  unfoldable pub execute : ℕ → DummyPipeline J → DummyPipeline J × RequestResult ℤ
  execute iteration d = (d, succeed (pos 0))

  unfoldable pub cleanup : ℕ → DummyPipeline J → DummyPipeline J × RequestResult ℤ
  cleanup iteration d = (record d { datasets = erase iteration d.datasets }, succeed (pos 0))

  -- `result.value() = true`
  unfoldable pub destroy : DummyPipeline J → DummyPipeline J × RequestResult ℤ
  destroy d = (d, succeed (pos 1))

-- The error leaves the value 0 in the response.
abbrev pub stage_failed : String → RequestResult ℤ
stage_failed message = record { success = false; error = message; value = some (pos 0) }

module _ {J : Type 0} (engine : Engine) where
  -- `stage` once the block is known to be new.
  unfoldable pub received :
      StageArgs → DummyPipeline J → Transfer → DummyPipeline J × RequestResult ℤ
  received args d (broken message) = (d, stage_failed message)
  received args d (arrived bytes) =
      let block : DataBlock = record {
        bytes = bytes;
        dimensions = args.dimensions;
        offsets = args.offsets;
        type = args.type;
      } in
      (
        record d {
          datasets = put_block args.iteration args.dataset_name args.block_id block d.datasets;
        },
        succeed (pos 0),
      )

  unfoldable pub stage : StageArgs → DummyPipeline J → DummyPipeline J × RequestResult ℤ
  unfolding received
  stage args d = elim (find_block args.iteration args.dataset_name args.block_id d.datasets) [
    | some _ ↦ (d, stage_failed "Block already exists for provided iteration, name, and id")
    | none ↦ received args d (engine.pull args.sender_addr args.bulk)
  ]

  -- The table of virtual functions.
  abbrev pub dummy : Backend (DummyPipeline J)
  dummy = record {
    update_mona_addresses = update_mona_addresses;
    start = start;
    abort = abort;
    stage = stage;
    execute = execute;
    cleanup = cleanup;
    destroy = destroy;
  }

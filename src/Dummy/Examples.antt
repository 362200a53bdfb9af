-- ===== src/Dummy/Examples.antt =====
-- The theorems on the dummy backend at concrete blocks.
use mochi_colza.Base.{
  ℕ, ◌≡◌, refl, some, [], ◌∷◌, String, pos, if◌then◌else◌, ◌==◌, nat_eq, string_eq,
}
use mochi_colza.Base.Map.{lookup}
use mochi_colza.Types.{float64}
use mochi_colza.Backend.{StageArgs}
use mochi_colza.Dummy.Blocks.{find_block}
use mochi_colza.Dummy.Pipeline.{DummyPipeline, Engine, arrived, broken, stage}
use mochi_colza.Dummy.Laws.{block_of, find_block-stage}

abbrev args : ℕ → StageArgs
args id = record {
  sender_addr = "na+sm://1";
  dataset_name = "mydata";
  iteration = 4;
  block_id = id;
  dimensions = 2 ∷ [];
  offsets = pos 0 ∷ [];
  type = float64;
  bulk = record { size = 16; handle = 1 };
}

abbrev engine : Engine
engine = record {
  pull = λ sender bulk. if sender == "" then broken "no address" else arrived (1 ∷ 2 ∷ []);
}

-- Block 7 of dataset "mydata" is there for iteration 4.
abbrev holding : DummyPipeline String
holding = record {
  gid = 1;
  config = "null";
  datasets = (4, ("mydata", (7, block_of (args 7) (9 ∷ [])) ∷ []) ∷ []) ∷ [];
}

find_block-stage_example :
    find_block 4 "mydata" 8 (stage engine (args 8) holding).0.datasets
    ≡ some (block_of (args 8) (1 ∷ 2 ∷ []))
unfolding find_block lookup
find_block-stage_example =
    find_block-stage engine (args 8) holding 4 "mydata" 8 (1 ∷ 2 ∷ []) refl refl

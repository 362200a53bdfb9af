-- ===== src/Provider/Samples.antt =====
-- A provider with dummy pipelines, and a history of requests, for tests and examples.
use mochi_colza.Base.{
  ℕ, true, false, List, [], ◌∷◌, String, pos, if◌then◌else◌, ◌==◌, nat_eq, string_eq,
}
use mochi_colza.Types.{float64}
use mochi_colza.Backend.{Backend, StageArgs, Registry}
use mochi_colza.Dummy.Pipeline
use mochi_colza.Dummy.Pipeline.{DummyPipeline, Engine, arrived, dummy}
use mochi_colza.Provider.State.{Provider}
use mochi_colza.Provider.Pipelines.{Host, loaded, parsed, parse_error}
use mochi_colza.Provider.Requests.{Request, create, start, stage, execute, cleanup, abort}

-- JSON values are texts.
abbrev pub Pipe : Type 0
Pipe = DummyPipeline String

abbrev pub engine : Engine
engine = record { pull = λ sender bulk. arrived (7 ∷ bulk.size ∷ []) }

abbrev pub backend : Backend Pipe
backend = dummy engine

-- A loader that finds every library and registers nothing new; a parser that takes every text but
-- "{".
abbrev pub host : Host Pipe String
host = record {
  dlopen = λ library create_fn. loaded create_fn;
  parse = λ text. if text == "{" then parse_error "unexpected end of input" else parsed text;
  null = "null";
}

abbrev pub registry : Registry Pipe String
registry = ("dummy", Pipeline.create) ∷ []

abbrev pub empty_provider : Provider Pipe String
empty_provider = record {
  token = "";
  gid = 1;
  group_hash = 12;
  mona_self_addr = "na+sm://5";
  mona_addresses = (5, 50) ∷ (9, 90) ∷ [];
  pipelines = [];
  num_active_pipelines = 0;
  create_fn = registry;
  left = false;
  finalized = false;
}

abbrev pub idle_pipe : Pipe
idle_pipe = record { gid = 1; config = "null"; datasets = [] }

-- The same provider with an idle pipeline "idle", last started at iteration 3, and a pipeline
-- "busy" that runs iteration n.
abbrev pub busy_provider : ℕ → Provider Pipe String
busy_provider n = record empty_provider {
  pipelines =
      ("idle", record { pipeline = idle_pipe; active = false; iteration = 3 })
      ∷ ("busy", record { pipeline = idle_pipe; active = true; iteration = n })
      ∷ [];
  num_active_pipelines = 1;
}

abbrev pub block : ℕ → StageArgs
block iteration = record {
  sender_addr = "na+sm://1";
  dataset_name = "mydata";
  iteration = iteration;
  block_id = 0;
  dimensions = 32 ∷ 54 ∷ [];
  offsets = pos 0 ∷ pos 0 ∷ [];
  type = float64;
  bulk = record { size = 13824; handle = 1 };
}

abbrev pub history : List Request
history =
    create "" "a" "dummy" "{}" ""
    ∷ start 12 "a" 4
    ∷ stage "a" (block 4)
    ∷ execute "a" 4 false
    ∷ cleanup "a" 4
    ∷ start 12 "a" 4
    ∷ start 12 "a" 5
    ∷ abort "a" 5
    ∷ []

-- ===== src/Client/Counter.antt =====
-- A backend of counters and a server of it, for tests and examples.
use mochi_colza.Base.{ℕ, suc, refl, String, false, [], ◌∷◌, nat_eq, string_eq}
use mochi_colza.Result.{fresh}
use mochi_colza.Backend.{Backend, created}
use mochi_colza.Provider.State.{Provider}
use mochi_colza.Provider.Pipelines.{Host, loaded, parsed}
use mochi_colza.Client.Network.{Network, handle_eq}
use mochi_colza.Client.Samples.{ph}
use mochi_colza.Client.Serving.{IsWilling}

-- A backend that counts the blocks, and agrees to everything.
abbrev pub counter : Backend ℕ
counter = record {
  update_mona_addresses = λ addresses b. b;
  start = λ i b. (b, fresh);
  abort = λ i b. b;
  stage = λ args b. (suc b, fresh);
  execute = λ i b. (b, fresh);
  cleanup = λ i b. (b, fresh);
  destroy = λ b. (b, fresh);
}

pub counter-IsWilling : IsWilling counter
unfolding fresh
counter-IsWilling = record {
  start_agrees = λ i b. refl;
  stage_agrees = λ args b. refl;
  execute_agrees = λ i b. refl;
  cleanup_agrees = λ i b. refl;
}

abbrev pub host : Host ℕ String
host = record {
  dlopen = λ library create_fn. loaded create_fn;
  parse = λ text. parsed text;
  null = "";
}

-- A provider without pipelines, at which the type "counter" is registered, and one with the idle
-- pipeline "new".
abbrev pub empty_provider : Provider ℕ String
empty_provider = record {
  token = "";
  gid = 1;
  group_hash = 12;
  mona_self_addr = "";
  mona_addresses = [];
  pipelines = [];
  num_active_pipelines = 0;
  create_fn = ("counter", λ args. created 0) ∷ [];
  left = false;
  finalized = false;
}

abbrev pub idle_provider : Provider ℕ String
idle_provider = record empty_provider {
  pipelines = ("new", record { pipeline = 0; active = false; iteration = 0 }) ∷ [];
}

abbrev pub empty_server : Network ℕ String
empty_server = (ph, empty_provider) ∷ []

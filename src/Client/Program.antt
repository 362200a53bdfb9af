-- ===== src/Client/Program.antt =====
-- examples/distributed/client.cpp: the loop over the iterations, on rank 0.
use mochi_colza.Base.{
  String, Option, none, true, ℕ, ◌+◌, zero, suc, Bool, false, some, List, [], ◌∷◌, pos,
  if◌then◌else◌,
}
use mochi_colza.Result.{Outcome, ok, throw, throw_std}
use mochi_colza.Types.{float64}
use mochi_colza.Backend.{Backend, Bulk, StageArgs}
use mochi_colza.Provider.Pipelines.{Host}
use mochi_colza.Client.Network.{Network}
use mochi_colza.Client.Connect.{Client, View, Broadcast, DistributedImpl, connect}
use mochi_colza.Client.Start.{
  Refresh, returns_with_ok, throws, overruns, retries, Started, start_loop,
}
use mochi_colza.Client.Collective.{stage_data, execute, cleanup}

-- The options --no-stage and --no-execute.
pub record Options : Type 0 where
  pub no_stage : Bool
  pub no_exec : Bool

-- The array `mydata`, 32 times 54 numbers, as a block of the rank.
abbrev pub my_data : ℕ → ℕ → StageArgs
my_data iteration rank = record {
  sender_addr = "";
  dataset_name = "mydata";
  iteration = iteration;
  block_id = rank;
  dimensions = 32 ∷ 54 ∷ [];
  offsets = pos 0 ∷ pos 0 ∷ [];
  type = float64;
  bulk = record { size = 0; handle = 0 };
}

-- How the loop ends: it comes to its end, with the handle that is then in use; an exception leaves
-- it; or a start does not return.
pub data Run (N : Type 0) : Type 0 where
  completes : N → DistributedImpl → Run N
  leaves : N → Outcome Unit → Run N
  hangs : Run N

-- A call, and the rest. Its value is not used.
unfoldable pub then_on : {N A : Type 0} → N × Outcome A → (N → Run N) → Run N
then_on (net, ok a) rest = rest net
then_on (net, throw e) rest = leaves net (throw e)
then_on (net, throw_std what) rest = leaves net (throw_std what)

-- A start, and the rest. It is void: whether the iteration runs is not known here.
unfoldable pub after_start :
    {B J : Type 0}
    → Started B J
    → (Network B J → DistributedImpl → Run (Network B J))
    → Run (Network B J)
after_start s rest = elim s.ending [
  | returns_with_ok b ↦ rest s.network s.self
  | throws e ↦ leaves s.network e
  | overruns ↦ hangs
  | retries ↦ hangs
]

module _ {B J : Type 0} (backend : Backend B) (host : Host B J) (client : Client)
    (expose : ℕ → ℕ → Bulk) (options : Options) (memory : ℕ)
    (refreshes : ℕ → List (Refresh B J)) where
  unfoldable pub stage_part :
      Network B J → DistributedImpl → ℕ → (Network B J → Run (Network B J)) → Run (Network B J)
  unfolding then_on stage_data
  stage_part net self iteration rest =
      if options.no_stage
      then rest net
      else then_on (stage_data backend host expose net (some self) (my_data iteration 0) memory)
          rest

  unfoldable pub execute_part :
      Network B J → DistributedImpl → ℕ → (Network B J → Run (Network B J)) → Run (Network B J)
  unfolding then_on execute
  execute_part net self iteration rest =
      if options.no_exec
      then rest net
      else then_on (execute backend host 0 net (some self) iteration false) rest

  -- One iteration, with what follows it. `refreshes` has what lies between the rounds of each start.
  unfoldable pub iteration_part :
      Network B J
      → DistributedImpl
      → ℕ
      → (Network B J → DistributedImpl → Run (Network B J))
      → Run (Network B J)
  unfolding after_start start_loop stage_part execute_part then_on cleanup
  iteration_part net self iteration rest =
      after_start (start_loop backend host client (refreshes iteration) net self iteration)
        λ net self. stage_part net self iteration λ net.
          execute_part net self iteration
            λ net. then_on (cleanup backend host 0 net (some self) iteration) λ net. rest net self

  -- The loop, where n iterations are left. The counter stays below the number of iterations, a
  -- uint64_t.
  unfoldable pub run_iterations : ℕ → Network B J → DistributedImpl → ℕ → Run (Network B J)
  unfolding iteration_part
  run_iterations zero net self iteration = completes net self
  run_iterations (suc n) net self iteration =
      iteration_part net self iteration λ net self. run_iterations n net self (iteration + 1)

  -- The handle, and the loop from iteration 0.
  unfoldable pub after_connect :
      ℕ → Network B J × List Broadcast × Option (Outcome DistributedImpl) → Run (Network B J)
  unfolding run_iterations
  after_connect n (net, sent, some (ok impl)) = run_iterations n net impl 0
  after_connect n (net, sent, some (throw e)) = leaves net (throw e)
  after_connect n (net, sent, some (throw_std what)) = leaves net (throw_std what)
  after_connect n (net, sent, none) = hangs

  -- The `try` block of `main`, with n iterations.
  unfoldable pub run_client : ℕ → Network B J → View → String → String → Run (Network B J)
  unfolding after_connect connect
  run_client n net view ssg_file pipeline =
      after_connect n (connect backend host client net view ssg_file 0 pipeline true)

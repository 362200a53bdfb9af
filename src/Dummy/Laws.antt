-- ===== src/Dummy/Laws.antt =====
-- examples/pipeline/DummyBackend.cpp: what can be staged, and what is kept.
use mochi_colza.Base.{
  ℕ, ◌≡◌, refl, ◌↔◌, ◌⊎◌, inl, inr, true, ◌&&◌, Option, none, some, List, arith, String,
  if◌then◌else◌, ◌==◌, nat_eq, string_eq,
}
use mochi_colza.Backend.{StageArgs}
use mochi_colza.Dummy.Blocks.{DataBlock, find_block, find_block-put_block, find_block-erase}
use mochi_colza.Dummy.Pipeline.{DummyPipeline, Engine, Transfer, arrived, broken, stage, cleanup}

-- The block that `stage` builds.
abbrev pub block_of : StageArgs → List ℕ → DataBlock
block_of args bytes = record {
  bytes = bytes;
  dimensions = args.dimensions;
  offsets = args.offsets;
  type = args.type;
}

Transfer-cases :
    (t : Transfer)
    → ((bytes : List ℕ) × (t ≡ arrived bytes)) ⊎ ((message : String) × (t ≡ broken message))
Transfer-cases (arrived bytes) = inl (bytes, refl)
Transfer-cases (broken message) = inr (message, refl)

module _ {J : Type 0} (engine : Engine) (args : StageArgs) (d : DummyPipeline J) where
  abbrev here : DummyPipeline J → Option DataBlock
  here e = find_block args.iteration args.dataset_name args.block_id e.datasets

  -- Staging succeeds exactly when the block is new and its data arrive.
  pub stage_succeeds_iff : ((stage engine args d).1.success ≡ true) ↔ (
      (here d ≡ none)
      × ((bytes : List ℕ) × (engine.pull args.sender_addr args.bulk ≡ arrived bytes)))
  unfolding stage
  stage_succeeds_iff = (
    λ e. elim (Transfer-cases (engine.pull args.sender_addr args.bulk)) [
      | inl (bytes, came) ↦ (ground arith, (bytes, came))
      | inr (message, lost) ↦ absurd (ground arith)
    ],
    λ (new, (bytes, came)). ground arith,
  )

  -- A block that was staged is found, with the bytes that arrived; every other block is as before.
  pub find_block-stage :
      (j : ℕ) (m : String) (c : ℕ) (bytes : List ℕ)
      → here d ≡ none
      → engine.pull args.sender_addr args.bulk ≡ arrived bytes
      → find_block j m c (stage engine args d).0.datasets ≡ (
          if args.iteration == j && (args.dataset_name == m && args.block_id == c)
          then some (block_of args bytes)
          else find_block j m c d.datasets)
  unfolding stage
  find_block-stage j m c bytes new came = ground (
    arith,
    find_block-put_block args.iteration j args.dataset_name m args.block_id c (block_of args bytes)
        d.datasets,
  )

  -- A block is never overwritten: what was found before a call of `stage` is found after it.
  pub stage_keeps_blocks :
      (j : ℕ) (m : String) (c : ℕ) (block : DataBlock)
      → find_block j m c d.datasets ≡ some block
      → find_block j m c (stage engine args d).0.datasets ≡ some block
  unfolding stage
  stage_keeps_blocks j m c block old =
      grind (arith, find_block-put_block, string_eq.same_iff args.dataset_name m)

-- After `cleanup` of an iteration none of its blocks is left, and those of other iterations are as
-- they were.
pub find_block-cleanup :
    {J : Type 0} (d : DummyPipeline J) (i j : ℕ) (m : String) (c : ℕ)
    → find_block j m c (cleanup i d).0.datasets
      ≡ (if i == j then none else find_block j m c d.datasets)
unfolding cleanup
find_block-cleanup d i j m c = find_block-erase i j m c d.datasets

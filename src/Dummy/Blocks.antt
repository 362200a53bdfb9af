-- ===== src/Dummy/Blocks.antt =====
-- `m_datasets` of examples/pipeline/DummyBackend.hpp: blocks by iteration, dataset name and block
-- id.
use mochi_colza.Base.{
  ℕ, ◌≡◌, ◌&&◌, Option, none, some, List, [], arith, String, ℤ, if◌then◌else◌, Comparable, ◌==◌,
  nat_eq, string_eq,
}
use mochi_colza.Base.Map.{Map, lookup, insert, erase, lookup-insert, lookup-erase}
use mochi_colza.Types.{DataType}

-- The bytes of `data` are numbers below 256.
pub record DataBlock : Type 0 where
  pub bytes : List ℕ
  pub dimensions : List ℕ
  pub offsets : List ℤ
  pub type : DataType

abbrev pub Datasets : Type 0
Datasets = Map ℕ (Map String (Map ℕ DataBlock))

-- `m[key]`, which puts an empty map where the key is missing.
abbrev pub at_or_empty {ℓ} : {K L V : Type ℓ} ⦃e : Comparable K⦄ → K → Map K (Map L V) → Map L V
at_or_empty k m = elim (lookup k m) [ none ↦ [] | some inner ↦ inner ]

unfoldable pub find_block : ℕ → String → ℕ → Datasets → Option DataBlock
find_block iteration name id datasets =
    lookup id (at_or_empty name (at_or_empty iteration datasets))

-- m_datasets[iteration][dataset_name][block_id] = block
unfoldable pub put_block : ℕ → String → ℕ → DataBlock → Datasets → Datasets
put_block iteration name id block datasets =
    let names = at_or_empty iteration datasets in
    insert iteration (insert name (insert id block (at_or_empty name names)) names) datasets

-- A block that was put is found under its three keys, and every other block as before.
pub find_block-put_block :
    (i j : ℕ) (n m : String) (b c : ℕ) (block : DataBlock) (datasets : Datasets)
    → find_block j m c (put_block i n b block datasets)
      ≡ (if i == j && (n == m && b == c) then some block else find_block j m c datasets)
unfolding find_block put_block
find_block-put_block i j n m b c block datasets =
    grind (arith, lookup-insert, string_eq.same_iff n m)

-- Erasing an iteration removes its blocks and no other.
pub find_block-erase :
    (i j : ℕ) (m : String) (c : ℕ) (datasets : Datasets)
    → find_block j m c (erase i datasets) ≡ (if i == j then none else find_block j m c datasets)
unfolding find_block lookup
find_block-erase i j m c datasets = ground (arith, lookup-erase i j datasets)

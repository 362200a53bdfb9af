-- ===== src/Client/Routing.antt =====
-- src/DistributedPipelineHandle.cpp: which server a block goes to, and what the callback of execute
-- and cleanup makes of the responses.
use mochi_colza.Base.{
  ℕ, ◌+◌, ◌*◌, ◌%◌, ◌/◌, ◌≤◌, ◌<◌, ◌≡◌, ◌≢◌, refl, false, Option, none, some, List, [], ◌∷◌, arith,
  length, get_elem?, String, ℤ, zero, suc, if◌then◌else◌, nat_eq, ◌==◌,
}
use native.Mathlib.Nat.{mul-suc, mul-le-mul_left, lt_of_mul-lt-mul_left, div-add-mod}
use mochi_colza.Result.{RequestResult, ok, throw_std, fresh}
use mochi_colza.Backend.{Backend, StageArgs}
use mochi_colza.Provider.Pipelines.{Host}
use mochi_colza.Async.Object.{AsyncResponse, Waited, returned, raised, raised_std}
use mochi_colza.Client.Network.{Network}
use mochi_colza.Client.PipelineHandle
use mochi_colza.Client.PipelineHandle.{PipelineHandleImpl, read_response}
use mochi_colza.Client.Connect.{DistributedImpl, block_hash}
use mochi_colza.Client.Collective.{stage, chosen, response_loop, all_callback}

pub get_elem?-some :
    {A : Type 0} (xs : List A) (i : ℕ) → i < length xs → (x : A) × (get_elem? xs i ≡ some x)
get_elem?-some [] i h = absurd (omega arith)
get_elem?-some (x ∷ xs) zero h = (x, refl)
get_elem?-some (x ∷ xs) (suc i) h = get_elem?-some xs i (omega arith)

module _ {B J : Type 0} (backend : Backend B) (host : Host B J) where
  -- A handle with pipelines stages every block through one of them, the one at the place that the
  -- hash modulo their number gives: that place is never out of bounds.
  pub stage_routes :
      (net : Network B J) (self : DistributedImpl) (args : StageArgs)
      → length self.pipelines ≢ 0
      → (p : PipelineHandleImpl) × (get_elem? self.pipelines (chosen self args) ≡ some p)
        × (stage backend host net (some self) args
            ≡ PipelineHandle.stage backend host net (some p) args)
  unfolding stage
  stage_routes net self args ne =
      let (p, at) = get_elem?-some self.pipelines (chosen self args) (omega arith) in
      let some_left : (length self.pipelines == 0) ≡ false = ground arith in
      (p, at, rw (some_left, at) refl)

-- Numbers less than n apart that are the same modulo n.
same_mod : (n a b : ℕ) → a ≤ b → b < a + n → a % n ≡ b % n → a ≡ b
same_mod n a b le near e =
    let multiple : n * (a / n) < n * (b / n) → n * (a / n) + n ≤ n * (b / n) =
      λ less. omega (arith, mul-le-mul_left n (lt_of_mul-lt-mul_left n less), mul-suc n (a / n)) in
    let monotone : n * (b / n) < n * (a / n) → n * (b / n) + n ≤ n * (a / n) =
      λ less. omega (arith, mul-le-mul_left n (lt_of_mul-lt-mul_left n less), mul-suc n (b / n)) in
    ground (arith, div-add-mod a n, div-add-mod b n)

-- With the hash function of a new handle, n blocks in a row go to n different servers.
pub block_hash_spreads :
    (n i j k : ℕ) (dataset : String) (iteration : ℕ)
    → j < n
    → k < n
    → block_hash dataset iteration (i + j) % n ≡ block_hash dataset iteration (i + k) % n
    → j ≡ k
block_hash_spreads n i j k dataset iteration jn kn e =
    ground (arith, same_mod n (i + j) (i + k), same_mod n (i + k) (i + j))

-- The responses that report a failure, in order.
abbrev pub failures : List AsyncResponse → List (RequestResult ℤ)
failures [] = []
failures (r ∷ rs) = let rest = failures rs in if r.arriving.success then rest else r.arriving ∷ rest

abbrev pub last_or : RequestResult ℤ → List (RequestResult ℤ) → RequestResult ℤ
last_or r [] = r
last_or r (s ∷ rs) = last_or s rs

-- The text of the first response that is lost.
abbrev pub first_lost : List AsyncResponse → Option String
first_lost [] = none
first_lost (r ∷ rs) =
    let rest = first_lost rs in elim r.lost [ none ↦ rest | some what ↦ some what ]

response_loop_lem :
    (rs : List AsyncResponse) (r : RequestResult ℤ)
    → response_loop r rs
      ≡ elim (first_lost rs) [ none ↦ ok (last_or r (failures rs)) | some what ↦ throw_std what ]
unfolding response_loop
response_loop_lem [] r = refl
response_loop_lem (s ∷ rs) r =
    grind (arith, response_loop_lem rs r, response_loop_lem rs s.arriving)

last_or_failure :
    (rs : List AsyncResponse) (r : RequestResult ℤ)
    → r.success ≡ false
    → (last_or r (failures rs)).success ≡ false
last_or_failure [] r h = h
last_or_failure (s ∷ rs) r h = grind (arith, last_or_failure rs r h, last_or_failure rs s.arriving)

last_failing :
    (rs : List AsyncResponse) (r x : RequestResult ℤ) (more : List (RequestResult ℤ))
    → failures rs ≡ x ∷ more
    → (last_or r (failures rs)).success ≡ false
last_failing [] r x more e = absurd (ground arith)
last_failing (s ∷ rs) r x more e =
    grind (arith, last_failing rs r x more, last_or_failure rs s.arriving)

abbrev pub error_of : RequestResult ℤ → Waited
error_of r = raised (record { code = r.value; what = r.error })

-- The callback of execute and cleanup: if an RPC failed after it was sent, it raises the exception of
-- the first such RPC, and the responses stay. Otherwise it clears them. If none reports a failure, it
-- returns, and what it writes to `*result` is indeterminate: none of the values that the servers
-- sent; if some do, it raises the last failure in the order of the servers.
pub all_callback_lem :
    (rs : List AsyncResponse)
    → all_callback rs ≡ elim (first_lost rs) [
      | some what ↦ (rs, raised_std what)
      | none ↦
          ([], elim (failures rs) [ [] ↦ returned none | r ∷ more ↦ error_of (last_or r more) ])
    ]
unfolding all_callback fresh
all_callback_lem rs = grind (arith, response_loop_lem rs fresh, last_failing rs fresh)

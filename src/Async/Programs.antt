-- ===== src/Async/Programs.antt =====
-- src/AsyncRequest.cpp: programs over handles, as sequences of operations.
use mochi_colza.Base.{ℕ, ◌≡◌, ◌≢◌, Option, none, some, List, nat_eq, arith}
use mochi_colza.Base.Map.{lookup, total-insert, lookup-insert, insert-Distinct}
use mochi_colza.Async.Object.{AsyncResponse, Callback, AsyncRequestImpl}
use mochi_colza.Async.Handles
use mochi_colza.Async.Handles.{Requests, points_to, use_count}
use mochi_colza.Async.Sharing.{
  IsHeld, copy-IsHeld, move-IsHeld, copy_assign-IsHeld, move_assign-IsHeld, wait-IsHeld,
  destroy-IsHeld,
}

-- The operations, with the variables that they are applied to.
pub data Action : Type 0 where
  make : ℕ → ℕ → List AsyncResponse → Callback → Action
  copy : ℕ → ℕ → Action
  move : ℕ → ℕ → Action
  copy_assign : ℕ → ℕ → Action
  move_assign : ℕ → ℕ → Action
  wait : ℕ → Action
  destroy : ℕ → Action

-- `none` is a process that has ended. A program goes on after an exception that it catches.
unfoldable pub act : Requests → Action → Option Requests
act s (make x o responses callback) = some (Handles.make s x o responses callback)
act s (copy x other) = some (Handles.copy s x other)
act s (move x other) = some (Handles.move s x other)
act s (copy_assign x other) = some (Handles.copy_assign s x other).0
act s (move_assign x other) = some (Handles.move_assign s x other).0
act s (wait x) = some (Handles.wait s x).0
act s (destroy x) = Handles.destroy s x

-- A constructor makes a variable that is not there, and `make_shared` an object.
abbrev pub IsLegal : Requests → Action → Type 0
IsLegal s (make x o responses callback) = (lookup x s.handles ≡ none) × (lookup o s.objects ≡ none)
IsLegal s (copy x other) = lookup x s.handles ≡ none
IsLegal s (move x other) = (x ≢ other) × (lookup x s.handles ≡ none)
IsLegal s _ = Unit

-- The states that a program reaches.
pub data Reaches (s : Requests) : Requests → Type 0 where
  here : Reaches s s
  next : {t u : Requests} (a : Action) → Reaches s t → IsLegal t a → act t a ≡ some u → Reaches s u

make-IsHeld :
    (s : Requests) (x o : ℕ) (responses : List AsyncResponse) (callback : Callback)
    → lookup x s.handles ≡ none
    → IsHeld s
    → IsHeld (Handles.make s x o responses callback)
unfolding Handles.make
make-IsHeld s x o responses callback new h = record {
  distinct = insert-Distinct x (some o) s.handles h.distinct;
  unheld = λ q impl e n. grind (
    arith,
    h.unheld q impl,
    total-insert {K = ℕ} (points_to q) x (some o) s.handles,
    lookup-insert {K = ℕ} {V = AsyncRequestImpl} o q,
  );
}

act-IsHeld : (s t : Requests) (a : Action) → IsHeld s → IsLegal s a → act s a ≡ some t → IsHeld t
unfolding act
act-IsHeld s t (make x o responses callback) h l e =
    let made = make-IsHeld s x o responses callback l.0 h in ground arith
act-IsHeld s t (copy x other) h l e = let copied = copy-IsHeld s x other l h in ground arith
act-IsHeld s t (move x other) h l e = let moved = move-IsHeld s x other l.0 l.1 h in ground arith
act-IsHeld s t (copy_assign x other) h l e =
    let set = copy_assign-IsHeld s x other h in ground arith
act-IsHeld s t (move_assign x other) h l e =
    let set = move_assign-IsHeld s x other h in ground arith
act-IsHeld s t (wait x) h l e = let waited = wait-IsHeld s x h in ground arith
act-IsHeld s t (destroy x) h l e = destroy-IsHeld s t x h e

-- In every state that a program reaches from one without handles and objects, a request that no
-- handle points to has been waited for.
pub Reaches-IsHeld : {s t : Requests} → Reaches s t → IsHeld s → IsHeld t
Reaches-IsHeld here h = h
Reaches-IsHeld (next a r l e) h = act-IsHeld _ _ a (Reaches-IsHeld r h) l e

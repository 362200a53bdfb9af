-- ===== src/Async/Handles.antt =====
-- src/AsyncRequest.cpp: the operations on handles. The variables that hold an `AsyncRequest` and
-- the objects on the heap are numbered; `use_count` of a `shared_ptr` is the number of variables
-- that point to its object.
use mochi_colza.Base.{
  ℕ, Bool, true, false, ◌||◌, Option, none, some, List, nat_eq, ◌==◌, if◌then◌else◌,
}
use mochi_colza.Base.Map.{Map, lookup, insert, erase, total}
use mochi_colza.Async.Object.{
  AsyncResponse, Waited, returned, silent, raised, raised_std, undefined, Callback,
  AsyncRequestImpl, completed_loop, settled,
}

pub record Requests : Type 0 where
  pub handles : Map ℕ (Option ℕ)
  pub objects : Map ℕ AsyncRequestImpl

-- `self` of a variable: `none` is a null pointer.
unfoldable pub self : Requests → ℕ → Option ℕ
self s x = elim (lookup x s.handles) [ none ↦ none | some p ↦ p ]

abbrev pub points_to : ℕ → Option ℕ → ℕ
points_to o p = elim p [ none ↦ 0 | some q ↦ if q == o then 1 else 0 ]

-- std::shared_ptr::use_count
abbrev pub use_count : Requests → ℕ → ℕ
use_count s o = total (points_to o) s.handles

abbrev pub same_pointer : Option ℕ → Option ℕ → Bool
same_pointer none none = true
same_pointer none (some p) = false
same_pointer (some o) none = false
same_pointer (some o) (some p) = o == p

-- x.self = p
abbrev pub point : Requests → ℕ → Option ℕ → Requests
point s x p = record s { handles = insert x p s.handles }

-- The object that the variable points to.
unfoldable pub pointee : Requests → ℕ → Option (ℕ × AsyncRequestImpl)
unfolding self
pointee s x = elim (self s x) [
  | none ↦ none
  | some o ↦ elim (lookup o s.objects) [ none ↦ none | some impl ↦ some (o, impl) ]
]

unfoldable pub wait_on : Requests → ℕ → AsyncRequestImpl → Requests × Waited
unfolding settled
wait_on s o impl =
    if impl.waited
    then (s, silent)
    else let called = impl.wait_callback impl.async_responses in
      (record s { objects = insert o (settled impl called) s.objects }, called.1)

-- AsyncRequest::wait
unfoldable pub wait : Requests → ℕ → Requests × Waited
unfolding pointee wait_on
wait s x = elim (pointee s x) [ none ↦ (s, silent) | some (o, impl) ↦ wait_on s o impl ]

-- AsyncRequest::completed
unfoldable pub completed : Requests → ℕ → Bool
unfolding pointee completed_loop
completed s x = elim (pointee s x) [
  | none ↦ true
  | some (o, impl) ↦ completed_loop true impl.async_responses
]

-- `if(self && self.unique()) wait();`
unfoldable pub wait_if_unique : Requests → ℕ → Requests × Waited
unfolding wait self
wait_if_unique s x = elim (self s x) [
  | none ↦ (s, silent)
  | some o ↦ if use_count s o == 1 then wait s x else (s, silent)
]

-- A destructor does not let an exception out: `none` is a process that std::terminate ends, or
-- one whose behaviour is undefined.
unfoldable pub after_wait : Waited → Requests → Option Requests
after_wait (returned v) s = some s
after_wait silent s = some s
after_wait (raised e) s = none
after_wait (raised_std what) s = none
after_wait undefined s = none

-- AsyncRequest::~AsyncRequest
unfoldable pub destroy : Requests → ℕ → Option Requests
unfolding wait_if_unique after_wait
destroy s x =
    let (t, w) = wait_if_unique s x in after_wait w (record t { handles = erase x t.handles })

-- AsyncRequest(const AsyncRequest& other), for a new variable x
unfoldable pub copy : Requests → ℕ → ℕ → Requests
unfolding self
copy s x other = point s x (self s other)

-- AsyncRequest(AsyncRequest&& other), for a new variable x
unfoldable pub move : Requests → ℕ → ℕ → Requests
unfolding self
move s x other = point (point s x (self s other)) other none

-- How an assignment goes on after the wait. An exception leaves the operator before it points
-- the variable elsewhere.
unfoldable pub assigned : Waited → Requests → Requests → Requests
assigned (returned v) s t = t
assigned silent s t = t
assigned (raised e) s t = s
assigned (raised_std what) s t = s
assigned undefined s t = s

-- operator=(const AsyncRequest& other)
unfoldable pub copy_assign : Requests → ℕ → ℕ → Requests × Waited
unfolding wait_if_unique assigned self
copy_assign s x other =
    if x == other || same_pointer (self s x) (self s other)
    then (s, silent)
    else let (t, w) = wait_if_unique s x in (assigned w t (point t x (self t other)), w)

-- operator=(AsyncRequest&& other)
unfoldable pub move_assign : Requests → ℕ → ℕ → Requests × Waited
unfolding wait_if_unique assigned self
move_assign s x other =
    if x == other || same_pointer (self s x) (self s other)
    then (s, silent)
    else let (t, w) = wait_if_unique s x in
      (assigned w t (point (point t x (self t other)) other none), w)

-- AsyncRequest(std::make_shared<AsyncRequestImpl>(responses)) with its callback, for a new
-- variable x and a new object o
unfoldable pub make : Requests → ℕ → ℕ → List AsyncResponse → Callback → Requests
make s x o responses callback = record {
  handles = insert x (some o) s.handles;
  objects =
      insert o (record { async_responses = responses; waited = false; wait_callback = callback })
        s.objects;
}

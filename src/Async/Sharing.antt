-- ===== src/Async/Sharing.antt =====
-- src/AsyncRequest.cpp: no request is dropped before it was waited for. When the last handle of a
-- request goes away, its destructor or the assignment over it has waited.
use mochi_colza.Base.{
  ℕ, ◌≡◌, ◌≢◌, subst, sym, ap, ◌∙◌, true, Option, none, some, nat_eq, ◌==◌, arith, inl, inr,
  Bool-cases, Option-cases,
}
use mochi_colza.Base.Map.{
  Map, lookup, insert, erase, total, Distinct, total-insert, insert-Distinct, erase-Distinct,
  total-erase, lookup-insert,
}
use mochi_colza.Async.Object.{
  Waited, returned, silent, raised, raised_std, undefined, AsyncRequestImpl,
}
use mochi_colza.Async.Handles.{
  Requests, self, points_to, use_count, point, wait, wait_if_unique, after_wait, destroy, copy,
  move, assigned, copy_assign, move_assign,
}

-- Each variable is there once, and an object that no variable points to has been waited for.
pub record IsHeld (s : Requests) : Type 0 where
  pub distinct : Distinct s.handles
  pub unheld :
      (o : ℕ) (impl : AsyncRequestImpl)
      → lookup o s.objects ≡ some impl
      → use_count s o ≡ 0
      → impl.waited ≡ true

-- The wait came back without an exception.
abbrev pub IsDone : Waited → Type 0
IsDone (returned v) = Unit
IsDone silent = Unit
IsDone (raised e) = ⊥
IsDone (raised_std what) = ⊥
IsDone undefined = ⊥

pub wait-handles : (s : Requests) (x : ℕ) → (wait s x).0.handles ≡ s.handles
unfolding wait
wait-handles s x = ground arith

-- Whatever has been waited for stays so.
pub wait_waited :
    (s : Requests) (x q : ℕ) (impl : AsyncRequestImpl)
    → lookup q (wait s x).0.objects ≡ some impl
    → ((old : AsyncRequestImpl) → lookup q s.objects ≡ some old → old.waited ≡ true)
    → impl.waited ≡ true
unfolding wait
wait_waited s x q impl e h = grind (arith, lookup-insert {K = ℕ} {V = AsyncRequestImpl})

-- A wait that is done leaves the object of the variable waited for.
pub wait_done :
    (s : Requests) (x o : ℕ) (impl : AsyncRequestImpl)
    → self s x ≡ some o
    → IsDone (wait s x).1
    → lookup o (wait s x).0.objects ≡ some impl
    → impl.waited ≡ true
unfolding wait
wait_done s x o impl h d e = grind (arith, lookup-insert {K = ℕ} {V = AsyncRequestImpl})

pub wait-IsHeld : (s : Requests) (x : ℕ) → IsHeld s → IsHeld (wait s x).0
wait-IsHeld s x h = record {
  distinct = subst (λ m. Distinct m) (sym (wait-handles s x)) h.distinct;
  unheld = λ q impl e none_left. wait_waited s x q impl e λ old found.
      h.unheld q old found
        (ap (λ (m : Map ℕ (Option ℕ)). total (points_to q) m) (sym (wait-handles s x)) ∙ none_left);
}

pub wait_if_unique-IsHeld : (s : Requests) (x : ℕ) → IsHeld s → IsHeld (wait_if_unique s x).0
unfolding wait_if_unique
wait_if_unique-IsHeld s x h = grind (arith, wait-IsHeld s x h)

pub wait_if_unique-handles : (s : Requests) (x : ℕ) → (wait_if_unique s x).0.handles ≡ s.handles
unfolding wait_if_unique
wait_if_unique-handles s x = grind (arith, wait-handles s x)

-- The object that only the variable held has been waited for, as have those that no variable held.
pub wait_if_unique_releases :
    (s : Requests) (x q : ℕ) (impl : AsyncRequestImpl)
    → IsHeld s
    → IsDone (wait_if_unique s x).1
    → lookup q (wait_if_unique s x).0.objects ≡ some impl
    → use_count s q ≡ points_to q (self s x)
    → impl.waited ≡ true
unfolding wait_if_unique
wait_if_unique_releases s x q impl h d e n = elim (Option-cases (self s x)) [
  | inl null ↦ grind (arith, h.unheld q impl)
  | inr (o, there) ↦ grind (arith, wait_done s x o impl there, wait_waited s x q impl, h.unheld q)
]

-- What the wait of a destructor or an assignment makes sure of.
abbrev Releases : Requests → ℕ → Type 0
Releases s x =
    (q : ℕ) (impl : AsyncRequestImpl)
    → lookup q s.objects ≡ some impl
    → use_count s q ≡ points_to q (self s x)
    → impl.waited ≡ true

-- Pointing a variable elsewhere is safe if the object that only it holds has been waited for.
point-IsHeld :
    (s : Requests) (x : ℕ) (p : Option ℕ) → IsHeld s → Releases s x → IsHeld (point s x p)
unfolding self
point-IsHeld s x p h released = record {
  distinct = insert-Distinct x p s.handles h.distinct;
  unheld = λ q impl e n.
      grind (arith, released q impl e, total-insert {K = ℕ} (points_to q) x p s.handles);
}

pub copy-IsHeld :
    (s : Requests) (x other : ℕ) → lookup x s.handles ≡ none → IsHeld s → IsHeld (copy s x other)
unfolding copy
copy-IsHeld s x other new h =
    point-IsHeld s x (self s other) h λ q impl e n. grind (arith, h.unheld q impl e)

-- Handing the pointer over: the first variable takes what the second gives up.
hand_over-IsHeld :
    (s : Requests) (x other : ℕ)
    → x ≢ other
    → IsHeld s
    → Releases s x
    → IsHeld (point (point s x (self s other)) other none)
unfolding self
hand_over-IsHeld s x other ne h released = record {
  distinct = insert-Distinct other none _ (insert-Distinct x (self s other) s.handles h.distinct);
  unheld = λ q impl e n. grind (
    arith,
    released q impl e,
    total-insert {K = ℕ} (points_to q) x (self s other) s.handles,
    total-insert {K = ℕ} (points_to q) other none (insert x (self s other) s.handles),
    lookup-insert {K = ℕ} x other (self s other) s.handles,
  );
}

wait_if_unique-Releases :
    (s : Requests) (x : ℕ)
    → IsHeld s
    → IsDone (wait_if_unique s x).1
    → Releases (wait_if_unique s x).0 x
unfolding self
wait_if_unique-Releases s x h d q impl e n =
    grind (arith, wait_if_unique_releases s x q impl h d e, wait_if_unique-handles s x)

erase-IsHeld :
    (s : Requests) (x : ℕ)
    → IsHeld s
    → Releases s x
    → IsHeld (record s { handles = erase x s.handles })
unfolding self
erase-IsHeld s x h released = record {
  distinct = erase-Distinct x s.handles h.distinct;
  unheld = λ q impl e n.
      grind (arith, released q impl e, total-erase {K = ℕ} (points_to q) x s.handles h.distinct);
}

after_wait-IsHeld :
    (w : Waited) (r t : Requests) → (IsDone w → IsHeld r) → after_wait w r ≡ some t → IsHeld t
unfolding after_wait
after_wait-IsHeld w r t held e = ground arith

pub destroy-IsHeld : (s t : Requests) (x : ℕ) → IsHeld s → destroy s x ≡ some t → IsHeld t
unfolding destroy
destroy-IsHeld s t x h e =
    let (u, w) = wait_if_unique s x in
    after_wait-IsHeld w (record u { handles = erase x u.handles }) t
      (λ d. erase-IsHeld u x (wait_if_unique-IsHeld s x h) (wait_if_unique-Releases s x h d)) e

-- An assignment keeps the state that it has if it throws.
assigned-IsHeld :
    (w : Waited) (s t : Requests) → IsHeld s → (IsDone w → IsHeld t) → IsHeld (assigned w s t)
unfolding assigned
assigned-IsHeld w s t h held = ground arith

pub copy_assign-IsHeld : (s : Requests) (x other : ℕ) → IsHeld s → IsHeld (copy_assign s x other).0
unfolding copy_assign
copy_assign-IsHeld s x other h =
    let (t, w) = wait_if_unique s x in
    let kept = wait_if_unique-IsHeld s x h in
    let moved =
      assigned-IsHeld w t (point t x (self t other)) kept
        (λ d. point-IsHeld t x (self t other) kept (wait_if_unique-Releases s x h d)) in
    ground arith

pub move_assign-IsHeld : (s : Requests) (x other : ℕ) → IsHeld s → IsHeld (move_assign s x other).0
unfolding move_assign
move_assign-IsHeld s x other h = elim (Bool-cases (x == other)) [
  | inl same ↦ ground arith
  | inr different ↦
      let (t, w) = wait_if_unique s x in
      let kept = wait_if_unique-IsHeld s x h in
      let moved = assigned-IsHeld w t (point (point t x (self t other)) other none) kept (λ d.
        hand_over-IsHeld t x other (λ e. ground arith) kept (wait_if_unique-Releases s x h d)) in
      ground arith
]

pub move-IsHeld :
    (s : Requests) (x other : ℕ)
    → x ≢ other
    → lookup x s.handles ≡ none
    → IsHeld s
    → IsHeld (move s x other)
unfolding move
move-IsHeld s x other ne new h =
    hand_over-IsHeld s x other ne h λ q impl e n. grind (arith, h.unheld q impl e)

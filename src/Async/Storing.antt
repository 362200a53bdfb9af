-- ===== src/Async/Storing.antt =====
-- src/AsyncRequest.cpp: a new request that is assigned to a variable.
use mochi_colza.Base.{
  ℕ, ◌≡◌, ◌≢◌, refl, sym, Option, none, some, nat_eq, ◌==◌, arith, inl, inr, Option-cases, List,
  Bool, true, false, ◌||◌, subst, ap, ◌∙◌, if◌then◌else◌,
}
use mochi_colza.Base.Map.{
  Map, lookup, erase, lookup-insert, lookup-insert_self, lookup-insert_ne, lookup-erase_ne,
  total-insert_new, weight_at-le-total,
}
use mochi_colza.Async.Object.{
  AsyncResponse, AsyncRequestImpl, Callback, silent, returned, raised, raised_std, undefined,
  Waited,
}
use mochi_colza.Async.Handles.{
  Requests, self, points_to, use_count, wait, wait_if_unique, make, move_assign, destroy, assigned,
  same_pointer, point,
}
use mochi_colza.Async.Sharing.{wait-handles}
use mochi_colza.Async.Sharing.{IsDone}

-- The variable y and the object o are new.
pub record AreNew (s : Requests) (y o : ℕ) : Type 0 where
  pub no_variable : lookup y s.handles ≡ none
  pub no_object : lookup o s.objects ≡ none
  pub no_pointer : use_count s o ≡ 0

wait_if_unique_null : (t : Requests) (x : ℕ) → self t x ≡ none → wait_if_unique t x ≡ (t, silent)
unfolding wait_if_unique self
wait_if_unique_null t x null = ground arith

wait_if_unique_points :
    (t : Requests) (x p : ℕ)
    → self t x ≡ some p
    → wait_if_unique t x ≡ (if use_count t p == 1 then wait t x else (t, silent))
unfolding wait_if_unique self
wait_if_unique_points t x p at = ground arith

wait_if_unique-handles : (t : Requests) (x : ℕ) → (wait_if_unique t x).0.handles ≡ t.handles
unfolding wait_if_unique
wait_if_unique-handles t x = grind (arith, wait-handles)

wait_if_unique_other :
    (t : Requests) (x q : ℕ)
    → self t x ≢ some q
    → lookup q (wait_if_unique t x).0.objects ≡ lookup q t.objects
unfolding wait_if_unique wait
wait_if_unique_other t x q other = grind (arith, lookup-insert {K = ℕ} {V = AsyncRequestImpl})

same_pointer_eq : (p q : Option ℕ) → same_pointer p q ≡ true → p ≡ q
same_pointer_eq none none e = refl
same_pointer_eq none (some q) e = absurd (ground arith)
same_pointer_eq (some p) none e = absurd (ground arith)
same_pointer_eq (some p) (some q) e = ap some ((nat_eq.same_iff p q).0 e)

assigned_done : (w : Waited) (t u : Requests) → IsDone w → assigned w t u ≡ u
unfolding assigned
assigned_done (returned v) t u done = refl
assigned_done silent t u done = refl
assigned_done (raised e) t u done = absurd done
assigned_done (raised_std what) t u done = absurd done
assigned_done undefined t u done = absurd done

move_assign_apart :
    (t : Requests) (x y : ℕ)
    → (x == y || same_pointer (self t x) (self t y)) ≡ false
    → let waited = wait_if_unique t x in
      move_assign t x y
      ≡ (assigned waited.1 waited.0 (point (point waited.0 x (self waited.0 y)) y none), waited.1)
unfolding move_assign self
move_assign_apart t x y apart = rw apart refl

-- An assignment to a variable of another pointer, where the wait is done.
move_assign_done :
    (t : Requests) (x y : ℕ)
    → x ≢ y
    → self t x ≢ self t y
    → IsDone (wait_if_unique t x).1
    → let waited = wait_if_unique t x in
      move_assign t x y ≡ (point (point waited.0 x (self waited.0 y)) y none, waited.1)
unfolding move_assign
move_assign_done t x y ne apart done =
    move_assign_apart t x y
      (ground (arith, nat_eq.same_iff x y, same_pointer_eq (self t x) (self t y)))
    ∙ ap (λ (u : Requests). (u, (wait_if_unique t x).1))
        (assigned_done (wait_if_unique t x).1 (wait_if_unique t x).0
          (point (point (wait_if_unique t x).0 x (self (wait_if_unique t x).0 y)) y none) done)

self-point : (t : Requests) (x : ℕ) (p : Option ℕ) → self (point t x p) x ≡ p
unfolding self
self-point t x p = grind (arith, lookup-insert_self {K = ℕ} {V = Option ℕ})

self-point_ne : (t : Requests) (y x : ℕ) (p : Option ℕ) → x ≢ y → self (point t y p) x ≡ self t x
unfolding self
self-point_ne t y x p ne = grind (arith, lookup-insert_ne {K = ℕ} {V = Option ℕ})

self-erase :
    (t : Requests) (y x : ℕ) → x ≢ y → self (record t { handles = erase y t.handles }) x ≡ self t x
unfolding self
self-erase t y x ne = grind (arith, lookup-erase_ne {K = ℕ} {V = Option ℕ})

self_waited : (t : Requests) (x y : ℕ) → self (wait_if_unique t x).0 y ≡ self t y
unfolding self
self_waited t x y =
    ap (λ (h : Map ℕ (Option ℕ)). elim (lookup y h) [ none ↦ none | some p ↦ p ])
      (wait_if_unique-handles t x)

destroy_null :
    (t : Requests) (y : ℕ)
    → self t y ≡ none
    → destroy t y ≡ some (record t { handles = erase y t.handles })
unfolding destroy
destroy_null t y null = rw (wait_if_unique_null t y null) refl

if_second :
    (b : Bool) (r r' : Requests × Waited) (s s' : Requests)
    → r.1 ≡ r'.1
    → (if b then r else (s, silent)).1 ≡ (if b then r' else (s', silent)).1
if_second true r r' s s' e = e
if_second false r r' s s' e = refl

module _ (s : Requests) (x y o : ℕ) (ne : x ≢ y) (fresh : AreNew s y o) where
  points_elsewhere : (p : ℕ) → self s x ≡ some p → p ≢ o
  unfolding self
  points_elsewhere p at =
      ground
        (arith, fresh.no_pointer, weight_at-le-total (points_to o) x s.handles, nat_eq.same_iff p o)

  module _ (responses : List AsyncResponse) (callback : Callback) where
    self-make : self (make s y o responses callback) x ≡ self s x
    unfolding self make
    self-make = grind (arith, lookup-insert {K = ℕ} {V = Option ℕ})

    use_count-make : (p : ℕ) → p ≢ o → use_count (make s y o responses callback) p ≡ use_count s p
    unfolding make
    use_count-make p other = ground (
      arith,
      total-insert_new (points_to p) y (some o) s.handles fresh.no_variable,
      nat_eq.same_iff o p,
    )

    wait-make : (wait (make s y o responses callback) x).1 ≡ (wait s x).1
    unfolding wait make
    wait-make = grind (
      arith,
      points_elsewhere,
      lookup-insert {K = ℕ} {V = Option ℕ},
      lookup-insert {K = ℕ} {V = AsyncRequestImpl},
    )

    wait_if_unique-make :
        (wait_if_unique (make s y o responses callback) x).1 ≡ (wait_if_unique s x).1
    wait_if_unique-make =
        let made = make s y o responses callback in
        elim (Option-cases (self s x)) [
          | inl null ↦
              ap (λ (r : Requests × Waited). r.1) (wait_if_unique_null made x (self-make ∙ null))
              ∙ sym (ap (λ (r : Requests × Waited). r.1) (wait_if_unique_null s x null))
          | inr (p, at) ↦
              let same = use_count-make p (points_elsewhere p at) in
              ap (λ (r : Requests × Waited). r.1) (wait_if_unique_points made x p (self-make ∙ at))
              ∙ (rw same (if_second (use_count s p == 1) (wait made x) (wait s x) made s wait-make)
                  ∙ sym (ap (λ (r : Requests × Waited). r.1) (wait_if_unique_points s x p at)))
        ]

    self_new : self (make s y o responses callback) y ≡ some o
    unfolding self make
    self_new = grind (arith, lookup-insert {K = ℕ} {V = Option ℕ})

    object_new :
        lookup o (make s y o responses callback).objects
        ≡ some (record { async_responses = responses; waited = false; wait_callback = callback })
    unfolding make
    object_new = lookup-insert_self o _ s.objects

    -- The assignment came back, and once the temporary is destroyed the variable has the new request.
    abbrev pub Assigned : Requests × Waited → Type 0
    Assigned (t, w) =
        IsDone w
        × ((u : Requests) × (destroy t y ≡ some u)
            × (self u x ≡ some o)
            × (lookup o u.objects
                ≡ some (record {
                  async_responses = responses;
                  waited = false;
                  wait_callback = callback;
                })))

    pub assigns_new :
        IsDone (wait_if_unique s x).1 → Assigned (move_assign (make s y o responses callback) x y)
    assigns_new done =
        let made = make s y o responses callback in
        let other : self made x ≢ some o =
          λ (e : self made x ≡ some o). points_elsewhere o (sym self-make ∙ e) refl in
        let done_there = subst (λ (w : Waited). IsDone w) (sym wait_if_unique-make) done in
        let is =
          move_assign_done made x y ne (λ (e : self made x ≡ self made y). other (e ∙ self_new))
            done_there in
        let t = (wait_if_unique made x).0 in
        let u = point (point t x (self t y)) y none in
        let held : self u x ≡ some o =
          self-point_ne (point t x (self t y)) y x none ne
          ∙ (self-point t x (self t y) ∙ (self_waited made x y ∙ self_new)) in
        subst (λ (r : Requests × Waited). Assigned r) (sym is)
          (
            done_there,
            (
              record u { handles = erase y u.handles },
              destroy_null u y (self-point (point t x (self t y)) y none),
              self-erase u y x ne ∙ held,
              wait_if_unique_other made x o other ∙ object_new,
            ),
          )

-- ===== src/Facade/Finalizing.antt =====
-- src/Provider.cpp: which finalize callbacks reset an object that is still there.
use mochi_colza.Base.{
  nat_eq, ℕ, ◌+◌, ◌-◌, ◌<◌, ◌≡◌, ◌≢◌, refl, String, false, Option, none, some, List, [], ◌∷◌, ◌==◌,
  if◌then◌else◌, arith, inl, inr, Option-cases,
}
use mochi_colza.Base.Map.{Map, lookup, insert, erase, lookup-insert, lookup-erase}
use mochi_colza.Facade.Impl.{Engine, pop, destruct_impl}
use mochi_colza.Facade.Objects.{
  Owned, Process, push_callback, pop_callback, release, move_construct, destroy, set_security_token,
  reset, run_callbacks, finalize,
}

-- How often a callback resets the object at the address.
unfoldable pub count : ℕ → List ℕ → ℕ
count a [] = 0
count a (b ∷ bs) = (if b == a then 1 else 0) + count a bs

count-pop :
    (a b : ℕ) (bs : List ℕ) → count a (pop b bs) ≡ (if b == a then count a bs - 1 else count a bs)
unfolding count pop
count-pop a b [] = ground arith
count-pop a b (c ∷ bs) = ground (arith, count-pop a b bs)

module _ {B J : Type 0} where
  -- 1 where the address has an object with a `self`.
  abbrev pub held : ℕ → Map ℕ (Option (Owned B J)) → ℕ
  held a objects = elim (lookup a objects) [ some (some impl) ↦ 1 | _ ↦ 0 ]

  -- Each object with a `self` has one callback, and there is no other.
  abbrev pub Tidy : Process B J → Type 0
  Tidy w = (a : ℕ) → count a w.engine.callbacks ≡ held a w.objects

  run_callbacks_dangling :
      (callbacks : List ℕ) (w : Process B J) (a : ℕ)
      → 0 < count a callbacks
      → lookup a w.objects ≡ none
      → run_callbacks callbacks w ≡ none
  unfolding run_callbacks count reset
  run_callbacks_dangling [] w a h e = absurd (omega arith)
  run_callbacks_dangling (b ∷ bs) w a h e = elim (Option-cases (lookup b w.objects)) [
    | inl gone ↦ rw (gone, run_callbacks) refl
    | inr (self, there) ↦
        let ne : (b == a) ≡ false = ground (arith, there, e) in
        rw (there, run_callbacks)
          (run_callbacks_dangling bs (reset w b self) a (ground arith)
            (ground (arith, lookup-insert b a none w.objects)))
  ]

  -- Every callback runs, and resets its object.
  run_callbacks_resets :
      (callbacks : List ℕ) (w : Process B J)
      → ((a : ℕ) → 0 < count a callbacks → lookup a w.objects ≢ none)
      → (v : Process B J) × (run_callbacks callbacks w ≡ some v)
        × ((a : ℕ)
            → lookup a v.objects
              ≡ (if 0 == count a callbacks then lookup a w.objects else some none))
  unfolding run_callbacks count reset
  run_callbacks_resets [] w h = (w, refl, λ a. refl)
  run_callbacks_resets (b ∷ bs) w h = elim (Option-cases (lookup b w.objects)) [
    | inl gone ↦ absurd (h b (ground arith) gone)
    | inr (self, there) ↦
        let (v, ends, resets) =
          run_callbacks_resets bs (reset w b self)
            (λ a more e. h a (ground arith) (ground (arith, lookup-insert b a none w.objects))) in
        (
          v,
          rw (there, run_callbacks) ends,
          λ a. ground (arith, resets a, lookup-insert b a none w.objects),
        )
  ]

  -- With one callback for each object that has a `self`, and no other, the finalization resets
  -- every object and no other memory.
  pub finalize_of_Tidy :
      (w : Process B J)
      → Tidy w
      → (v : Process B J) × (finalize w ≡ some v)
        × ((a : ℕ)
            → lookup a v.objects
              ≡ elim (lookup a w.objects) [ none ↦ none | some self ↦ some none ])
  unfolding finalize
  finalize_of_Tidy w tidy =
      let (v, ends, resets) =
        run_callbacks_resets w.engine.callbacks
          (record w { engine = record w.engine { callbacks = [] } })
          (λ a more e. ground (arith, tidy a)) in
      (v, ends, λ a. ground (arith, resets a, tidy a))

  pub finalize_dangling :
      (w : Process B J) (a : ℕ)
      → 0 < count a w.engine.callbacks
      → lookup a w.objects ≡ none
      → finalize w ≡ none
  unfolding finalize
  finalize_dangling w a h e =
      run_callbacks_dangling w.engine.callbacks
        (record w { engine = record w.engine { callbacks = [] } }) a h e

  abbrev moved : Process B J → ℕ → ℕ → Owned B J → Process B J
  moved w this other impl = record w {
    engine = push_callback this (pop_callback this w.engine);
    objects = insert this (some impl) (insert other none w.objects);
  }

  move_construct_lem :
      (w : Process B J) (this other : ℕ) (impl : Owned B J)
      → lookup other w.objects ≡ some (some impl)
      → move_construct w this other ≡ moved w this other impl
  unfolding move_construct
  move_construct_lem w this other impl there = rw (there, move_construct) refl

  destroy_null :
      (w : Process B J) (this : ℕ)
      → lookup this w.objects ≡ some none
      → destroy w this ≡ record w { objects = erase this w.objects }
  unfolding destroy
  destroy_null w this there = rw (there, destroy) refl

  -- A `Provider` that is moved from and then destroyed leaves its callback behind: the move
  -- constructor pops the callbacks of the new object, which has none, and the destructor of the old
  -- one finds its pointer null. The finalization then writes to where the old object was.
  pub finalize-move_construct :
      (w : Process B J) (this other : ℕ) (impl : Owned B J)
      → Tidy w
      → lookup other w.objects ≡ some (some impl)
      → lookup this w.objects ≡ none
      → finalize (destroy (move_construct w this other) other) ≡ none
  unfolding count
  finalize-move_construct w this other impl tidy there new_ =
      let u = moved w this other impl in
      let null_ : lookup other u.objects ≡ some none = ground (
        arith,
        lookup-insert this other (some impl) (insert other none w.objects),
        lookup-insert other other none w.objects,
      ) in
      rw (move_construct_lem w this other impl there, destroy_null u other null_)
        (finalize_dangling (record u { objects = erase other u.objects }) other
          (ground (arith, tidy other, count-pop other this w.engine.callbacks))
          (ground (arith, lookup-erase other other u.objects)))

  destroy_gone : (w : Process B J) (this : ℕ) → lookup this w.objects ≡ none → destroy w this ≡ w
  unfolding destroy
  destroy_gone w this there = rw (there, destroy) refl

  destroy_held :
      (w : Process B J) (this : ℕ) (impl : Owned B J)
      → lookup this w.objects ≡ some (some impl)
      → destroy w this ≡ record w {
        engine = release (some impl) (pop_callback this w.engine);
        objects = erase this w.objects;
      }
  unfolding destroy
  destroy_held w this impl there = rw (there, destroy) refl

  pub destroy-Tidy : (w : Process B J) (this : ℕ) → Tidy w → Tidy (destroy w this)
  unfolding destruct_impl
  destroy-Tidy w this tidy a = elim (Option-cases (lookup this w.objects)) [
    | inl gone ↦ rw (destroy_gone w this gone) (tidy a)
    | inr (none, there) ↦
        rw (destroy_null w this there)
          (ground (arith, tidy a, tidy this, lookup-erase this a w.objects))
    | inr (some impl, there) ↦ rw (destroy_held w this impl there) (
        ground (
          arith,
          tidy a,
          tidy this,
          lookup-erase this a w.objects,
          count-pop a this w.engine.callbacks,
        ))
  ]

  pub set_security_token-Tidy :
      (w : Process B J) (this : ℕ) (token : String)
      → Tidy w
      → Tidy (set_security_token w this token)
  unfolding set_security_token
  set_security_token-Tidy w this token tidy a = elim (Option-cases (lookup this w.objects)) [
    | inl gone ↦ rw (gone, set_security_token) (tidy a)
    | inr (none, there) ↦ rw (there, set_security_token) (tidy a)
    | inr (some impl, there) ↦
        rw (there, set_security_token)
          (ground (
            arith,
            tidy a,
            tidy this,
            lookup-insert this a
                (some (record impl { provider = record impl.provider { token = token } }))
                w.objects,
          ))
  ]

  -- The first constructor of the object at a new address, up to the end of `processConfig`.
  pub held-Tidy :
      (w : Process B J) (e : Engine) (this : ℕ) (impl : Owned B J)
      → Tidy w
      → e.callbacks ≡ w.engine.callbacks
      → lookup this w.objects ≡ none
      → Tidy
          (record w { engine = push_callback this e; objects = insert this (some impl) w.objects })
  unfolding count
  held-Tidy w e this impl tidy same_ new_ a =
      rw same_ (ground (arith, tidy a, tidy this, lookup-insert this a (some impl) w.objects))

-- ===== src/Provider/Threads/Arrivals.antt =====
-- src/ProviderImpl.hpp: the arrival of a handler keeps what holds in every state.
use mochi_colza.Base.{
  nat_eq, string_eq, String, false, not, ℕ, ◌+◌, ◌≤◌, ◌≡◌, refl, some, ◌∷◌, ◌==◌, if◌then◌else◌,
  arith, get_elem?, inl, inr, Option-cases, leb, ◌&&◌, ◌||◌,
}
use mochi_colza.Base.Map.{lookup}
use mochi_colza.Backend.{Backend}
use mochi_colza.Provider.State.{PipelineState, increment}
use mochi_colza.Provider.Invariant.{weight}
use mochi_colza.Provider.Threads.{
  find, found, begin_during, begin_start, install_object, destroy_object,
}
use mochi_colza.Provider.Shared.{Task, starting, Shared}
use mochi_colza.Provider.Threads.Sums.{sum, sum-snoc, sum-set, at-set, at-snoc_zero}
use mochi_colza.Provider.Threads.Exclusive.{
  starts_on, ends_on, starts, Sound, IsFree, found-all, if-all,
}

module _ {B : Type 0} where
  -- A new task, and the counter with it.
  started-Sound :
      (s : Shared B) (o i : ℕ) (state : PipelineState B)
      → Sound s
      → get_elem? s.objects o ≡ some state
      → state.active ≡ false
      → sum (starts_on o) s.tasks ≡ 0
      → Sound (record s {
        num_active_pipelines = increment s.num_active_pipelines;
        tasks = starting o i ∷ s.tasks;
      })
  unfolding sum
  started-Sound s o i state v found idle_ free = record {
    starting = λ p. ground (arith, v.starting p);
    ending = λ p. ground (arith, v.ending p);
    counted = omega (arith, v.counted);
  }

  pub get_elem?-find :
      (s : Shared B) (name : String) (o : ℕ) (state : PipelineState B)
      → find s name ≡ some (o, state)
      → get_elem? s.objects o ≡ some state
  unfolding find
  get_elem?-find s name o state e = elim (Option-cases (lookup name s.names)) [
    | inl nothing ↦ ground arith
    | inr (p, named) ↦ elim (Option-cases (get_elem? s.objects p)) [
      | inl nothing ↦ ground arith
      | inr (t, held) ↦ ground arith
    ]
  ]

  pub begin_start-Sound :
      (s : Shared B) (hash : ℕ) (name : String) (i : ℕ)
      → Sound s
      → IsFree s name
      → Sound (begin_start s hash name i)
  unfolding begin_start
  begin_start-Sound s hash name i v free =
      if-all Sound (not (hash == s.group_hash)) _ _ (λ _. v)
        λ _. found-all Sound s (find s name) _ v λ o state e.
          if-all Sound (state.active || (not (state.iteration == 0) && leb i state.iteration)) _ _
            (λ _. v)
            λ quiet.
              started-Sound s o i state v (get_elem?-find s name o state e) (ground arith)
                (free o state e).0

  pub begin_during-Sound :
      (s : Shared B) (name : String) (i : ℕ) (task : ℕ → Task)
      → Sound s
      → ((o p : ℕ) → starts_on p (task o) ≡ 0)
      → ((o : ℕ) → starts (task o) ≡ 0)
      → ((o p : ℕ) (state : PipelineState B)
          → find s name ≡ some (o, state)
          → sum (ends_on p) s.tasks + ends_on p (task o)
            ≤ (if o == p then 1 else sum (ends_on p) s.tasks))
      → Sound (begin_during s name i task)
  unfolding begin_during sum
  begin_during-Sound s name i task v h1 h2 h3 = found-all Sound s (find s name) _ v λ o state e.
      if-all Sound (state.active && (state.iteration == i)) _ _
        (λ ready.
          let held = get_elem?-find s name o state e in
          record {
            starting = λ p. omega (arith, v.starting p, h1 o p);
            ending = λ p. ground (arith, v.ending p, h3 o p state);
            counted = omega (arith, v.counted, h2 o);
          })
        (λ _. v)

  pub install_object-Sound :
      (s : Shared B) (name : String) (b : B) → Sound s → Sound (install_object s name b)
  unfolding install_object
  install_object-Sound s name b v =
      let new : PipelineState B = record { pipeline = b; active = false; iteration = 0 } in
      record {
        starting = λ p. omega (arith, v.starting p, at-snoc_zero weight s.objects new p refl);
        ending = λ p. omega (arith, v.ending p, at-snoc_zero weight s.objects new p refl);
        counted = omega (arith, v.counted, sum-snoc weight s.objects new);
      }

  pub destroy_object-Sound :
      (backend : Backend B) (s : Shared B) (name : String)
      → Sound s
      → Sound (destroy_object backend s name)
  unfolding destroy_object
  destroy_object-Sound backend s name v = found-all Sound s (find s name) _ v λ o state e.
      if-all Sound state.active _ _ (λ _. v)
        λ idle_.
          let held = get_elem?-find s name o state e in
          let new : PipelineState B = record state {
            pipeline = (backend.destroy state.pipeline).0;
          } in
          record {
            starting =
                λ p. ground (arith, v.starting p, at-set weight s.objects o p state new held);
            ending = λ p. ground (arith, v.ending p, at-set weight s.objects o p state new held);
            counted = ground (arith, v.counted, sum-set weight s.objects o state new held);
          }

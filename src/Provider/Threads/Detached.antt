-- ===== src/Provider/Threads/Detached.antt =====
-- src/ProviderImpl.hpp: an object that the map no longer holds is out of the reach of every handler
-- that arrives.
use mochi_colza.Base.{
  nat_eq, string_eq, String, false, not, ℕ, ◌≡◌, refl, Option, none, some, List, [], ◌∷◌, ◌==◌,
  if◌then◌else◌, arith, length, get_elem?, set, inl, inr, Option-cases, leb, ◌&&◌, ◌||◌, ◌∙◌, ◌≢◌,
  sym,
}
use mochi_colza.Base.Map.{Map, lookup, erase, lookup-insert, lookup-erase}
use mochi_colza.Backend.{Backend}
use mochi_colza.Provider.State.{PipelineState, increment}
use mochi_colza.Provider.Invariant.{weight}
use mochi_colza.Provider.Threads.{
  try_leave, find, begin_during, begin_start, install_object, destroy_object, end_start,
  end_cleanup, end_execute, end_abort, end_task, resume_taken, resume_task, step, run,
}
use mochi_colza.Provider.Threads.Updating.{at-update_named}
use mochi_colza.Provider.Shared.{
  change_group, update_addresses, Task, starting, staging, executing, cleaning, aborting, object,
  Shared, Event, install, destroy, start, stage, execute, cleanup, abort, resume, leave, take_out,
}
use mochi_colza.Provider.Threads.Sums.{sum, at, sum-take_out, at-set, at-snoc_zero, at_bound}
use mochi_colza.Provider.Threads.Exclusive.{if-all, found-all}
use mochi_colza.Provider.Threads.Arrivals.{get_elem?-find}

-- 1 for a task on the object.
abbrev pub on : ℕ → Task → ℕ
on o t = if object t == o then 1 else 0

module _ {B : Type 0} where
  -- No name leads to the object, no handler is at work on it, and it is active.
  pub record IsDetached (o : ℕ) (s : Shared B) : Type 0 where
    pub unnamed : (name : String) → lookup name s.names ≢ some o
    pub unused : sum (on o) s.tasks ≡ 0
    pub active : at weight s.objects o ≡ 1

module _ {B : Type 0} (o : ℕ) where
  found_elsewhere :
      (s : Shared B) (name : String) (p : ℕ) (state : PipelineState B)
      → IsDetached o s
      → find s name ≡ some (p, state)
      → p ≢ o
  unfolding find
  found_elsewhere s name p state d e same_ = elim (Option-cases (lookup name s.names)) [
    | inl nothing ↦ ground arith
    | inr (q, named) ↦ ground (arith, d.unnamed name)
  ]

  call-IsDetached :
      (s : Shared B) (t : Task) (count : ℕ)
      → IsDetached o s
      → object t ≢ o
      → IsDetached o (record s { tasks = t ∷ s.tasks; num_active_pipelines = count })
  unfolding sum
  call-IsDetached s t count d ne = record {
    unnamed = d.unnamed;
    unused = ground (arith, d.unused);
    active = d.active;
  }

  begin_during-IsDetached :
      (s : Shared B) (name : String) (i : ℕ) (task : ℕ → Task)
      → IsDetached o s
      → ((p : ℕ) → object (task p) ≡ p)
      → IsDetached o (begin_during s name i task)
  unfolding begin_during
  begin_during-IsDetached s name i task d h =
      found-all (IsDetached o) s (find s name) _ d λ p state e.
        if-all (IsDetached o) (state.active && (state.iteration == i)) _ _
          (λ _.
            call-IsDetached s (task p) s.num_active_pipelines d
              (λ same_. found_elsewhere s name p state d e (sym (h p) ∙ same_)))
          (λ _. d)

  begin_start-IsDetached :
      (s : Shared B) (hash : ℕ) (name : String) (i : ℕ)
      → IsDetached o s
      → IsDetached o (begin_start s hash name i)
  unfolding begin_start
  begin_start-IsDetached s hash name i d =
      if-all (IsDetached o) (not (hash == s.group_hash)) _ _ (λ _. d)
        λ _. found-all (IsDetached o) s (find s name) _ d λ p state e.
          if-all (IsDetached o)
            (state.active || (not (state.iteration == 0) && leb i state.iteration)) _ _ (λ _. d)
            λ _.
              call-IsDetached s (starting p i) (increment s.num_active_pipelines) d
                (found_elsewhere s name p state d e)

  renamed-IsDetached :
      (s : Shared B) (names : Map String ℕ)
      → IsDetached o s
      → ((name : String) → lookup name names ≢ some o)
      → IsDetached o (record s { names = names })
  renamed-IsDetached s names d h = record { unnamed = h; unused = d.unused; active = d.active }

  install_object-IsDetached :
      (s : Shared B) (name : String) (b : B)
      → IsDetached o s
      → IsDetached o (install_object s name b)
  unfolding install_object
  install_object-IsDetached s name b d =
      let new : PipelineState B = record { pipeline = b; active = false; iteration = 0 } in
      record {
        unnamed = λ m e. ground (
          arith,
          lookup-insert name m (length s.objects) s.names,
          d.unnamed m,
          d.active,
          at_bound weight s.objects o,
        );
        unused = d.unused;
        active = omega (arith, d.active, at-snoc_zero weight s.objects new o refl);
      }

  try_leave-IsDetached : (s : Shared B) → IsDetached o s → IsDetached o (try_leave s)
  unfolding try_leave lookup
  try_leave-IsDetached s d =
      if-all (IsDetached o) (s.num_active_pipelines == 0) _ _
        (λ _. record { unnamed = λ m e. ground arith; unused = d.unused; active = d.active })
        (λ _. d)

  -- A handler returns, and writes into its own object.
  written-IsDetached :
      (s : Shared B) (p : ℕ) (state new : PipelineState B) (count : ℕ) (tasks : List Task)
      → IsDetached o s
      → p ≢ o
      → get_elem? s.objects p ≡ some state
      → sum (on o) tasks ≡ 0
      → IsDetached o
          (record s { objects = set s.objects p new; num_active_pipelines = count; tasks = tasks })
  written-IsDetached s p state new count tasks d ne held none_ = record {
    unnamed = d.unnamed;
    unused = none_;
    active = ground (arith, d.active, at-set weight s.objects p o state new held);
  }

  module _ (backend : Backend B) where
    destroy_object-IsDetached :
        (s : Shared B) (name : String)
        → IsDetached o s
        → IsDetached o (destroy_object backend s name)
    unfolding destroy_object
    destroy_object-IsDetached s name d = found-all (IsDetached o) s (find s name) _ d λ p state e.
        if-all (IsDetached o) state.active _ _ (λ _. d)
          λ _.
            let new : PipelineState B = record state {
              pipeline = (backend.destroy state.pipeline).0;
            } in
            let written =
              written-IsDetached s p state new s.num_active_pipelines s.tasks d
                (found_elsewhere s name p state d e) (get_elem?-find s name p state e) d.unused in
            renamed-IsDetached (record s { objects = set s.objects p new }) (erase name s.names)
              written λ m e. ground (arith, lookup-erase name m s.names, d.unnamed m)

    end_task-IsDetached :
        (s : Shared B) (t : Task) (rest : List Task) (state : PipelineState B)
        → IsDetached o s
        → object t ≢ o
        → sum (on o) rest ≡ 0
        → get_elem? s.objects (object t) ≡ some state
        → IsDetached o (end_task backend (record s { tasks = rest }) t state)
    unfolding end_task end_start end_cleanup end_abort end_execute sum
    end_task-IsDetached s (starting p i) rest state d ne none_ held =
        if-all (IsDetached o) (backend.start i state.pipeline).1.success _ _
          (λ _. written-IsDetached s p state _ _ rest d ne held none_)
          (λ _. written-IsDetached s p state _ _ rest d ne held none_)
    end_task-IsDetached s (staging p args) rest state d ne none_ held =
        written-IsDetached s p state _ _ rest d ne held none_
    end_task-IsDetached s (executing p i auto_cleanup) rest state d ne none_ held =
        if-all (IsDetached o) ((backend.execute i state.pipeline).1.success && auto_cleanup) _ _
          (λ _. written-IsDetached s p state _ _ (cleaning p i ∷ rest) d ne held (ground arith))
          (λ _. written-IsDetached s p state _ _ rest d ne held none_)
    end_task-IsDetached s (cleaning p i) rest state d ne none_ held =
        if-all (IsDetached o) (backend.cleanup i state.pipeline).1.success _ _
          (λ _. written-IsDetached s p state _ _ rest d ne held none_)
          (λ _. written-IsDetached s p state _ _ rest d ne held none_)
    end_task-IsDetached s (aborting p i) rest state d ne none_ held =
        written-IsDetached s p state _ _ rest d ne held none_

    resume_taken-IsDetached :
        (s : Shared B) (n : ℕ) (r : Option (Task × List Task))
        → IsDetached o s
        → take_out n s.tasks ≡ r
        → IsDetached o (resume_taken backend s r)
    unfolding resume_taken
    resume_taken-IsDetached s n none d taken = d
    resume_taken-IsDetached s n (some (t, rest)) d taken =
        let parts = sum-take_out (on o) n s.tasks t rest taken in
        elim (Option-cases (get_elem? s.objects (object t))) [
          | inl nothing ↦ rw (nothing, resume_taken) d
          | inr (state, held) ↦
              rw (held, resume_taken)
                (end_task-IsDetached s t rest state d (λ same_. ground (arith, parts, d.unused))
                  (omega (arith, parts, d.unused)) held)
        ]

    step-IsDetached :
        (s : Shared B) (e : Event B) → IsDetached o s → IsDetached o (step backend s e)
    unfolding step resume_task
    step-IsDetached s (install name b) d = install_object-IsDetached s name b d
    step-IsDetached s (destroy name) d = destroy_object-IsDetached s name d
    step-IsDetached s (start hash name i) d = begin_start-IsDetached s hash name i d
    step-IsDetached s (stage name args) d =
        begin_during-IsDetached s name args.iteration (λ o. staging o args) d (λ p. refl)
    step-IsDetached s (execute name i auto_cleanup) d =
        begin_during-IsDetached s name i (λ o. executing o i auto_cleanup) d (λ p. refl)
    step-IsDetached s (cleanup name i) d =
        begin_during-IsDetached s name i (λ o. cleaning o i) d (λ p. refl)
    step-IsDetached s (abort name i) d =
        begin_during-IsDetached s name i (λ o. aborting o i) d (λ p. refl)
    step-IsDetached s (resume n) d = resume_taken-IsDetached s n (take_out n s.tasks) d refl
    step-IsDetached s leave d = try_leave-IsDetached s d
    step-IsDetached s (change_group id) d = record {
      unnamed = d.unnamed;
      unused = d.unused;
      active = d.active;
    }
    step-IsDetached s (update_addresses addresses) d = record {
      unnamed = d.unnamed;
      unused = d.unused;
      active = at-update_named backend addresses s.names o s.objects ∙ d.active;
    }

    pub run-IsDetached :
        (s : Shared B) (es : List (Event B)) → IsDetached o s → IsDetached o (run backend s es)
    unfolding run
    run-IsDetached s [] d = d
    run-IsDetached s (e ∷ es) d = run-IsDetached (step backend s e) es (step-IsDetached s e d)

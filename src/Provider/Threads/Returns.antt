-- ===== src/Provider/Threads/Returns.antt =====
-- src/ProviderImpl.hpp: the return of a backend to its handler keeps what holds in every state.
use mochi_colza.Base.{
  nat_eq, string_eq, true, false, ℕ, ◌+◌, ◌%◌, ◌^◌, ◌≤◌, ◌≡◌, refl, Bool, Option, none, some, List,
  ◌∷◌, ◌==◌, if◌then◌else◌, arith, get_elem?, set, inl, inr, Option-cases, ◌&&◌, ◌∙◌, ap, ◌-◌, ℤ,
}
use mochi_colza.Result.{RequestResult}
use mochi_colza.Backend.{Backend}
use mochi_colza.Provider.State.{PipelineState, decrement}
use mochi_colza.Provider.Invariant.{weight}
use mochi_colza.Provider.Threads.{
  end_start, end_cleanup, end_execute, end_abort, end_task, resume_taken, resume_task,
}
use mochi_colza.Provider.Shared.{
  Task, starting, staging, executing, cleaning, aborting, object, Shared, take_out,
}
use mochi_colza.Provider.Threads.Sums.{sum, at, sum-set, sum-take_out, at-le-sum, at-set}
use mochi_colza.Provider.Threads.Exclusive.{starts_on, ends_on, starts, Sound, if-all}

-- The tasks that end an iteration, or may.
record Ends (t : Task) : Type 0 where
  starts_none : starts t ≡ 0
  starts_nowhere : (p : ℕ) → starts_on p t ≡ 0
  ends_here : (p : ℕ) → ends_on p t ≡ (if object t == p then 1 else 0)

module _ {B : Type 0} where
  -- A handler returns to a sound state, and writes a new state into its object.
  module _ (s : Shared B) (n : ℕ) (t : Task) (rest : List Task) (state : PipelineState B)
      (v : Sound s) (taken : take_out n s.tasks ≡ some (t, rest))
      (held : get_elem? s.objects (object t) ≡ some state) where
    written-Sound :
        (new : PipelineState B) (count : ℕ) (tasks : List Task)
        → ((p : ℕ)
            → sum (starts_on p) tasks
                + (if object t == p then weight new else at weight s.objects p)
              ≤ 1)
        → ((p : ℕ)
            → sum (ends_on p) tasks ≤ (if object t == p then weight new else at weight s.objects p))
        → count ≡ (sum weight s.objects + weight new - weight state + sum starts tasks) % 2 ^ 64
        → Sound (record s {
          objects = set s.objects (object t) new;
          num_active_pipelines = count;
          tasks = tasks;
        })
    written-Sound new count tasks h k c = record {
      starting = λ p. rw (at-set weight s.objects (object t) p state new held) (h p);
      ending = λ p. rw (at-set weight s.objects (object t) p state new held) (k p);
      counted =
          c
          ∙ ap (λ (x : ℕ). (x + sum starts tasks) % 2 ^ 64)
              (omega (arith, sum-set weight s.objects (object t) state new held));
    }

  module _ (s : Shared B) (n o i : ℕ) (rest : List Task) (state : PipelineState B) (v : Sound s)
      (held : get_elem? s.objects o ≡ some state) where
    end_start-Sound :
        (r : B × RequestResult ℤ)
        → take_out n s.tasks ≡ some (starting o i, rest)
        → Sound (end_start (record s { tasks = rest }) o i state r)
    unfolding end_start
    end_start-Sound (b, result) taken =
        let now = λ (p : ℕ). sum-take_out (starts_on p) n s.tasks (starting o i) rest taken in
        let later = λ (p : ℕ). sum-take_out (ends_on p) n s.tasks (starting o i) rest taken in
        let count = sum-take_out starts n s.tasks (starting o i) rest taken in
        if-all Sound result.success _ _
          (λ yes_.
            written-Sound s n (starting o i) rest state v taken held
              (record { pipeline = b; active = true; iteration = i }) s.num_active_pipelines rest
              (λ p. ground (arith, v.starting p, now p)) (λ p. ground (arith, v.ending p, later p))
              (ground (arith, v.counted, count, v.starting o, now o)))
          (λ no_.
            written-Sound s n (starting o i) rest state v taken held (record state { pipeline = b })
              (decrement s.num_active_pipelines) rest (λ p. ground (arith, v.starting p, now p))
              (λ p. ground (arith, v.ending p, later p)) (ground (arith, v.counted, count)))

  module _ (s : Shared B) (n : ℕ) (t : Task) (rest : List Task) (state : PipelineState B)
      (v : Sound s) (taken : take_out n s.tasks ≡ some (t, rest))
      (held : get_elem? s.objects (object t) ≡ some state) where
    -- The backend has done something to the object, and the phase stays.
    kept-Sound :
        (b : B)
        → starts t ≡ 0
        → ((p : ℕ) → starts_on p t ≡ 0)
        → Sound (record s {
          objects = set s.objects (object t) (record state { pipeline = b });
          tasks = rest;
        })
    kept-Sound b none_ nowhere =
        written-Sound s n t rest state v taken held (record state { pipeline = b })
          s.num_active_pipelines rest
          (λ p.
            ground
              (arith, v.starting p, sum-take_out (starts_on p) n s.tasks t rest taken, nowhere p))
          (λ p. ground (arith, v.ending p, sum-take_out (ends_on p) n s.tasks t rest taken))
          (ground (arith, v.counted, sum-take_out starts n s.tasks t rest taken, none_))

    -- The iteration is over.
    over-Sound :
        (b : B) (i : ℕ)
        → Ends t
        → Sound (record s {
          objects =
              set s.objects (object t) (record { pipeline = b; active = false; iteration = i });
          num_active_pipelines = decrement s.num_active_pipelines;
          tasks = rest;
        })
    over-Sound b i h =
        written-Sound s n t rest state v taken held
          (record { pipeline = b; active = false; iteration = i })
          (decrement s.num_active_pipelines) rest
          (λ p. ground (
            arith,
            v.starting p,
            sum-take_out (starts_on p) n s.tasks t rest taken,
            h.starts_nowhere p,
          ))
          (λ p. ground (
            arith,
            v.starting p,
            v.ending p,
            sum-take_out (ends_on p) n s.tasks t rest taken,
            h.ends_here p,
          ))
          (ground (
            arith,
            v.counted,
            sum-take_out starts n s.tasks t rest taken,
            h.starts_none,
            v.ending (object t),
            sum-take_out (ends_on (object t)) n s.tasks t rest taken,
            h.ends_here (object t),
            at-le-sum weight s.objects (object t),
          ))

    end_cleanup-Sound :
        (r : B × RequestResult ℤ)
        → Ends t
        → Sound (end_cleanup (record s { tasks = rest }) (object t) state r)
    unfolding end_cleanup
    end_cleanup-Sound (b, result) h =
        if-all Sound result.success _ _ (λ _. over-Sound b state.iteration h)
          (λ _. kept-Sound b h.starts_none h.starts_nowhere)

  end_execute-Sound :
      (s : Shared B) (n o i : ℕ) (auto_cleanup : Bool) (rest : List Task) (state : PipelineState B)
      (r : B × RequestResult ℤ)
      → Sound s
      → take_out n s.tasks ≡ some (executing o i auto_cleanup, rest)
      → get_elem? s.objects o ≡ some state
      → Sound (end_execute (record s { tasks = rest }) o i auto_cleanup state r)
  unfolding end_execute sum
  end_execute-Sound s n o i auto_cleanup rest state (b, result) v taken held =
      let t = executing o i auto_cleanup in
      if-all Sound (result.success && auto_cleanup) _ _
        (λ _.
          written-Sound s n t rest state v taken held (record state { pipeline = b })
            s.num_active_pipelines (cleaning o i ∷ rest)
            (λ p. ground (arith, v.starting p, sum-take_out (starts_on p) n s.tasks t rest taken))
            (λ p. ground (arith, v.ending p, sum-take_out (ends_on p) n s.tasks t rest taken))
            (ground (arith, v.counted, sum-take_out starts n s.tasks t rest taken)))
        (λ _. kept-Sound s n t rest state v taken held b refl (λ p. refl))

  module _ (backend : Backend B) where
    end_task-Sound :
        (s : Shared B) (n : ℕ) (t : Task) (rest : List Task) (state : PipelineState B)
        → Sound s
        → take_out n s.tasks ≡ some (t, rest)
        → get_elem? s.objects (object t) ≡ some state
        → Sound (end_task backend (record s { tasks = rest }) t state)
    unfolding end_task
    end_task-Sound s n (starting o i) rest state v taken held =
        end_start-Sound s n o i rest state v held (backend.start i state.pipeline) taken
    end_task-Sound s n (staging o args) rest state v taken held =
        kept-Sound s n (staging o args) rest state v taken held
          (backend.stage args state.pipeline).0 refl (λ p. refl)
    end_task-Sound s n (executing o i auto_cleanup) rest state v taken held =
        end_execute-Sound s n o i auto_cleanup rest state (backend.execute i state.pipeline) v taken
          held
    end_task-Sound s n (cleaning o i) rest state v taken held =
        end_cleanup-Sound s n (cleaning o i) rest state v taken held
          (backend.cleanup i state.pipeline)
          (record { starts_none = refl; starts_nowhere = λ p. refl; ends_here = λ p. refl })
    end_task-Sound s n (aborting o i) rest state v taken held =
        unfold end_abort in
        over-Sound s n (aborting o i) rest state v taken held (backend.abort i state.pipeline)
          (decrement state.iteration)
          (record { starts_none = refl; starts_nowhere = λ p. refl; ends_here = λ p. refl })

    resume_taken-Sound :
        (s : Shared B) (n : ℕ) (r : Option (Task × List Task))
        → Sound s
        → take_out n s.tasks ≡ r
        → Sound (resume_taken backend s r)
    unfolding resume_taken
    resume_taken-Sound s n none v taken = v
    resume_taken-Sound s n (some (t, rest)) v taken =
        elim (Option-cases (get_elem? s.objects (object t))) [
          | inl nothing ↦ rw (nothing, resume_taken) v
          | inr (state, held) ↦
              rw (held, resume_taken) (end_task-Sound s n t rest state v taken held)
        ]

    pub resume_task-Sound : (s : Shared B) (n : ℕ) → Sound s → Sound (resume_task backend s n)
    unfolding resume_task
    resume_task-Sound s n v = resume_taken-Sound s n (take_out n s.tasks) v refl

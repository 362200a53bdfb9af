-- ===== src/Provider/Threads/Destroyed.antt =====
-- src/ProviderImpl.hpp: a pipeline that is destroyed while its start is on the way. The handler
-- still has the shared pointer, and sets an object active that the map no longer holds.
use mochi_colza.Base.{
  nat_eq, string_eq, String, true, false, ℕ, ◌+◌, ◌^◌, ◌<◌, ◌≡◌, refl, some, List, [], ◌∷◌, ◌++◌,
  arith, length, get_elem?, set, ◌⊎◌, ◌∙◌, ap, sym, subst,
}
use mochi_colza.Base.Map.{lookup, erase, lookup-erase}
use mochi_colza.Backend.{Backend}
use mochi_colza.Provider.State.{PipelineState, increment}
use mochi_colza.Provider.Invariant.{weight}
use mochi_colza.Provider.Threads.{
  try_leave, find, begin_start, destroy_object, end_start, end_task, resume_taken, resume_task,
  step, run,
}
use mochi_colza.Provider.Shared.{
  Task, starting, Shared, Event, destroy, start, resume, leave, take_out,
}
use mochi_colza.Provider.Threads.Sums.{sum, at-le-sum, at-set, set-set, get_elem?-set}
use mochi_colza.Provider.Threads.Exclusive.{Sound, AreExclusive}
use mochi_colza.Provider.Threads.Arrivals.{get_elem?-find}
use mochi_colza.Provider.Threads.Leaving.{run-Sound, run-append, small}
use mochi_colza.Provider.Threads.Detached.{on, IsDetached, run-IsDetached}

module _ {B : Type 0} where
  -- No other name leads to the object.
  abbrev pub IsOnly : Shared B → String → ℕ → Type 0
  IsOnly s name o = (m : String) → lookup m s.names ≡ some o → m ≡ name

  -- The three events: a start, the destruction of the pipeline, and the return of the backend.
  abbrev pub destroyed_start : ℕ → String → ℕ → List (Event B)
  destroyed_start hash name i = start hash name i ∷ destroy name ∷ resume 0 ∷ []

module _ {B : Type 0} (backend : Backend B) where
  -- The object of a pipeline whose backend is destroyed.
  abbrev pub gone : PipelineState B → PipelineState B
  gone state = record state { pipeline = (backend.destroy state.pipeline).0 }

  -- A start that passes its tests.
  begun :
      (s : Shared B) (hash : ℕ) (name : String) (o i : ℕ) (state : PipelineState B)
      → hash ≡ s.group_hash
      → find s name ≡ some (o, state)
      → state.active ≡ false
      → (state.iteration ≡ 0) ⊎ (state.iteration < i)
      → begin_start s hash name i ≡ record s {
        num_active_pipelines = increment s.num_active_pipelines;
        tasks = starting o i ∷ s.tasks;
      }
  unfolding begin_start
  begun s hash name o i state view found_ idle_ later_ = rw found_ (ground arith)

  destroyed :
      (s : Shared B) (name : String) (o : ℕ) (state : PipelineState B)
      → find s name ≡ some (o, state)
      → state.active ≡ false
      → destroy_object backend s name
        ≡ record s { objects = set s.objects o (gone state); names = erase name s.names }
  unfolding destroy_object
  destroyed s name o state found_ idle_ = rw found_ (ground arith)

  -- The newest handler is a start, and the backend agrees.
  started_up :
      (s : Shared B) (o i : ℕ) (rest : List Task) (state : PipelineState B)
      → s.tasks ≡ starting o i ∷ rest
      → get_elem? s.objects o ≡ some state
      → (backend.start i state.pipeline).1.success ≡ true
      → resume_task backend s 0 ≡ record s {
        objects = set s.objects o (record {
          pipeline = (backend.start i state.pipeline).0;
          active = true;
          iteration = i;
        });
        tasks = rest;
      }
  unfolding resume_task resume_taken take_out end_task end_start
  started_up s o i rest state waiting held agrees =
      rw waiting (rw (held, resume_taken) (ground arith))

  gone_there :
      (s : Shared B) (o : ℕ) (state : PipelineState B)
      → get_elem? s.objects o ≡ some state
      → get_elem? (set s.objects o (gone state)) o ≡ some (gone state)
  gone_there s o state held = ground (arith, get_elem?-set s.objects o o state (gone state) held)

  -- The state that they leave.
  left_behind :
      (s : Shared B) (hash : ℕ) (name : String) (o i : ℕ) (state : PipelineState B)
      → hash ≡ s.group_hash
      → find s name ≡ some (o, state)
      → state.active ≡ false
      → (state.iteration ≡ 0) ⊎ (state.iteration < i)
      → (backend.start i (gone state).pipeline).1.success ≡ true
      → run backend s (destroyed_start hash name i) ≡ record s {
        objects = set s.objects o (record {
          pipeline = (backend.start i (gone state).pipeline).0;
          active = true;
          iteration = i;
        });
        num_active_pipelines = increment s.num_active_pipelines;
        names = erase name s.names;
      }
  unfolding run step find
  left_behind s hash name o i state view found_ idle_ later_ agrees =
      let going = record s {
        num_active_pipelines = increment s.num_active_pipelines;
        tasks = starting o i ∷ s.tasks;
      } in
      rw
        (
          begun s hash name o i state view found_ idle_ later_,
          destroyed going name o state found_ idle_,
          started_up
              (record going { objects = set s.objects o (gone state); names = erase name s.names })
              o i s.tasks (gone state) refl
              (gone_there s o state (get_elem?-find s name o state found_)) agrees,
          set-set s.objects o (gone state) (record {
            pipeline = (backend.start i (gone state).pipeline).0;
            active = true;
            iteration = i;
          }),
        )
        refl

  detached :
      (s : Shared B) (name : String) (o i : ℕ) (b : B) (state : PipelineState B)
      → IsOnly s name o
      → get_elem? s.objects o ≡ some state
      → sum (on o) s.tasks ≡ 0
      → IsDetached o (record s {
        objects = set s.objects o (record { pipeline = b; active = true; iteration = i });
        num_active_pipelines = increment s.num_active_pipelines;
        names = erase name s.names;
      })
  detached s name o i b state only held unused_ =
      let new : PipelineState B = record { pipeline = b; active = true; iteration = i } in
      record {
        unnamed =
            λ m e. ground (arith, lookup-erase name m s.names, only m, string_eq.same_iff name m);
        unused = unused_;
        active = ground (arith, at-set weight s.objects o o state new held);
      }

  waits :
      (t : Shared B) (o : ℕ)
      → Sound t
      → IsDetached o t
      → length t.objects + length t.tasks < 2 ^ 64
      → try_leave t ≡ t
  unfolding try_leave
  waits t o v d few =
      ground (arith, small t v few, v.counted, d.active, at-le-sum weight t.objects o)

  -- A start during which the pipeline is destroyed, and which the destroyed backend agrees to, leaves
  -- leave waiting after every later exclusive schedule, as long as there are fewer than 2^64 objects
  -- and handlers: the object that no name leads to stays active. The invariant holds before, the
  -- pipeline has one name, and no handler is on the way on it.
  pub destroyed_start_blocks_leave :
      (s : Shared B) (hash : ℕ) (name : String) (o i : ℕ) (state : PipelineState B)
      (es : List (Event B))
      → Sound s
      → hash ≡ s.group_hash
      → find s name ≡ some (o, state)
      → IsOnly s name o
      → sum (on o) s.tasks ≡ 0
      → state.active ≡ false
      → (state.iteration ≡ 0) ⊎ (state.iteration < i)
      → (backend.start i (gone state).pipeline).1.success ≡ true
      → AreExclusive backend s (destroyed_start hash name i ++ es)
      → let t = run backend s (destroyed_start hash name i ++ es) in
        length t.objects + length t.tasks < 2 ^ 64 → step backend t leave ≡ t
  unfolding step
  destroyed_start_blocks_leave s hash name o i state es v view found_ only unused_ idle_ later_
        agrees careful few =
      let b = (backend.start i (gone state).pipeline).0 in
      let held = get_elem?-find s name o state found_ in
      let first = left_behind s hash name o i state view found_ idle_ later_ agrees in
      let t_is =
        run-append backend s (destroyed_start hash name i) es ∙ ap (λ u. run backend u es) first in
      let t_detached =
        subst (IsDetached o) (sym t_is)
          (run-IsDetached o backend _ es (detached s name o i b state only held unused_)) in
      waits _ o (run-Sound backend s (destroyed_start hash name i ++ es) v careful) t_detached few

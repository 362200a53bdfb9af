-- ===== src/Provider/Threads/Races.antt =====
-- src/ProviderImpl.hpp: two handlers that overlap on one pipeline.
use mochi_colza.Base.{
  nat_eq, string_eq, String, true, false, ℕ, ◌≡◌, refl, some, List, [], ◌∷◌, ◌==◌, arith, get_elem?,
  set, ◌≢◌,
}
use mochi_colza.Backend.{Backend}
use mochi_colza.Provider.State.{PipelineState, decrement}
use mochi_colza.Provider.Threads.{
  try_leave, find, call, begin_during, end_cleanup, end_task, resume_taken, resume_task, step, run,
}
use mochi_colza.Provider.Shared.{Task, cleaning, Shared, cleanup, resume, leave, take_out}
use mochi_colza.Provider.Threads.Sums.{get_elem?-set}
use mochi_colza.Provider.Threads.Arrivals.{get_elem?-find}

module _ {B : Type 0} (backend : Backend B) where
  -- The tests let the handler pass.
  begun :
      (s : Shared B) (name : String) (i o : ℕ) (state : PipelineState B) (task : ℕ → Task)
      → find s name ≡ some (o, state)
      → state.active ≡ true
      → state.iteration ≡ i
      → begin_during s name i task ≡ call s (task o)
  unfolding begin_during
  begun s name i o state task found_ active_ at_i = rw found_ (ground arith)

  abbrev after_cleanup : Shared B → ℕ → ℕ → List Task → PipelineState B → Shared B
  after_cleanup s o i rest state = record s {
    objects =
        set s.objects o
          (record state { pipeline = (backend.cleanup i state.pipeline).0; active = false });
    num_active_pipelines = decrement s.num_active_pipelines;
    tasks = rest;
  }

  -- The newest handler is a cleanup, and the backend agrees.
  cleaned_up :
      (s : Shared B) (o i : ℕ) (rest : List Task) (state : PipelineState B)
      → s.tasks ≡ cleaning o i ∷ rest
      → get_elem? s.objects o ≡ some state
      → (backend.cleanup i state.pipeline).1.success ≡ true
      → resume_task backend s 0 ≡ after_cleanup s o i rest state
  unfolding resume_task resume_taken take_out end_task end_cleanup
  cleaned_up s o i rest state waiting held agrees =
      rw waiting (rw (held, resume_taken) (ground arith))

  -- Two cleanups of a pipeline that overlap: where it is one of two that are active, leave goes on
  -- although the other one, p, is still active.
  pub overlapping_cleanups_let_leave :
      (s : Shared B) (name : String) (o i p : ℕ) (state other : PipelineState B)
      → s.num_active_pipelines ≡ 2
      → find s name ≡ some (o, state)
      → state.active ≡ true
      → state.iteration ≡ i
      → o ≢ p
      → get_elem? s.objects p ≡ some other
      → other.active ≡ true
      → (backend.cleanup i state.pipeline).1.success ≡ true
      → (backend.cleanup i (backend.cleanup i state.pipeline).0).1.success ≡ true
      → let t =
          run backend s (cleanup name i ∷ cleanup name i ∷ resume 0 ∷ resume 0 ∷ leave ∷ []) in
        (t.left ≡ true) × (get_elem? t.objects p ≡ some other)
  unfolding run step find try_leave
  overlapping_cleanups_let_leave s name o i p state other two found_ active_ at_i ne held busy ok
        ok' =
      let a = cleaning o i in
      let one = call s a in
      let both = call one a in
      let inactive : PipelineState B = record state {
        pipeline = (backend.cleanup i state.pipeline).0;
        active = false;
      } in
      let first = after_cleanup both o i (a ∷ s.tasks) state in
      let last = after_cleanup first o i s.tasks inactive in
      let home = get_elem?-find s name o state found_ in
      let again : get_elem? first.objects o ≡ some inactive =
        rw (get_elem?-set s.objects o o state inactive home) (ground arith) in
      let end : resume_task backend first 0 ≡ last =
        cleaned_up first o i s.tasks inactive refl again ok' in
      let zero_ : (decrement (decrement s.num_active_pipelines) == 0) ≡ true = rw two in
      let stays : get_elem? last.objects p ≡ some other = grind (
        arith,
        get_elem?-set first.objects o p inactive
            (record inactive { pipeline = (backend.cleanup i inactive.pipeline).0 }) again,
        get_elem?-set s.objects o p state inactive home,
      ) in
      rw
        (
          begun s name i o state (λ o. cleaning o i) found_ active_ at_i,
          begun one name i o state (λ o. cleaning o i) found_ active_ at_i,
          cleaned_up both o i (a ∷ s.tasks) state refl home ok,
          end,
        )
        (rw zero_ (refl, stays))

-- ===== src/Provider/Threads/Returning.antt =====
-- src/ProviderImpl.hpp: `start`, `stage`, `cleanup` and `abort` in their two steps, where no other
-- handler is on the way.
use mochi_colza.Base.{
  nat_eq, string_eq, String, true, false, not, ℕ, ◌≡◌, some, [], ◌∷◌, ◌==◌, set, leb, ◌&&◌, ap, ℤ,
  sym, subst,
}
use mochi_colza.Base.Map.{insert}
use mochi_colza.Result.{RequestResult}
use mochi_colza.Backend.{Backend, StageArgs}
use mochi_colza.Provider.State.{PipelineState, increment, decrement}
use mochi_colza.Provider.Threads.{
  find, begin_start, end_start, end_cleanup, end_abort, end_task, resume_task, step, run,
}
use mochi_colza.Provider.Shared.{
  starting, staging, cleaning, aborting, Shared, start, stage, cleanup, abort, resume,
}
use mochi_colza.Provider.Threads.Arrivals.{get_elem?-find}
use mochi_colza.Provider.State.{Provider, Response}
use mochi_colza.Provider.Iterations
use mochi_colza.Provider.Iterations.{started, cleaned, executed}
use mochi_colza.Provider.Threads.View.{
  IsInjective, view, Agrees, written-Agrees, resumed, idle_resume,
}
use mochi_colza.Provider.Threads.Pairs.{
  during_alone, either, if-both, if-both_same, Same, found_alone,
}

module _ {B J : Type 0} (backend : Backend B) where
  module _ (s : Shared B) (p : Provider B J) (a : Agrees s p) (inj : IsInjective s.names) where
    -- What the handler writes, to the object and through the map.
    pub ends :
        (name : String) (o : ℕ) (state new : PipelineState B) (count : ℕ → ℕ)
        → find s name ≡ some (o, state)
        → Agrees
            (record s {
              objects = set s.objects o new;
              num_active_pipelines = count s.num_active_pipelines;
            })
            (record p {
              pipelines = insert name new p.pipelines;
              num_active_pipelines = count p.num_active_pipelines;
            })
    ends name o state new count e =
        written-Agrees s p name o state new _ _ a (ap count a.count) inj e

    end_cleanup_alone :
        (name : String) (o : ℕ) (state : PipelineState B) (r : B × RequestResult ℤ)
        → find s name ≡ some (o, state)
        → Agrees (end_cleanup s o state r) (cleaned backend p name state r).0
    unfolding end_cleanup cleaned
    end_cleanup_alone name o state (b, result) e =
        if-both Same result.success _ _ _ _
          (ends name o state (record state { pipeline = b; active = false }) decrement e)
          (ends name o state (record state { pipeline = b }) (λ n. n) e)

    pub cleanup_alone :
        (name : String) (i : ℕ)
        → Agrees
            (run backend s (cleanup name i ∷ resume 0 ∷ []))
            (Iterations.cleanup backend p name i).0
    unfolding run step Iterations.cleanup end_task
    cleanup_alone name i =
        during_alone backend s p name i (λ o. cleaning o i)
          (λ state. cleaned backend p name state (backend.cleanup i state.pipeline))
          (λ t. resume_task backend t 0) a (idle_resume backend s a.none_waits)
          λ o state e.
            rw (resumed backend s (cleaning o i) state (get_elem?-find s name o state e))
              (end_cleanup_alone name o state (backend.cleanup i state.pipeline) e)

    pub stage_alone :
        (name : String) (args : StageArgs)
        → Agrees
            (run backend s (stage name args ∷ resume 0 ∷ []))
            (Iterations.stage backend p name args).0
    unfolding run step Iterations.stage end_task
    stage_alone name args =
        during_alone backend s p name args.iteration (λ o. staging o args) _
          (λ t. resume_task backend t 0) a (idle_resume backend s a.none_waits)
          λ o state e.
            rw (resumed backend s (staging o args) state (get_elem?-find s name o state e)) (
              ends name o state (record state { pipeline = (backend.stage args state.pipeline).0 })
                (λ n. n) e)

    pub abort_alone :
        (name : String) (i : ℕ)
        → Agrees
            (run backend s (abort name i ∷ resume 0 ∷ []))
            (Iterations.abort backend p name i).0
    unfolding run step Iterations.abort end_task end_abort
    abort_alone name i =
        during_alone backend s p name i (λ o. aborting o i) _ (λ t. resume_task backend t 0) a
          (idle_resume backend s a.none_waits)
          λ o state e.
            rw (resumed backend s (aborting o i) state (get_elem?-find s name o state e))
              (ends name o state _ decrement e)

    counted-Agrees :
        (count : ℕ → ℕ)
        → Agrees
            (record s { num_active_pipelines = count s.num_active_pipelines })
            (record p { num_active_pipelines = count p.num_active_pipelines })
    unfolding view find
    counted-Agrees count = record {
      hash = a.hash;
      count = ap count a.count;
      same = a.same;
      none_waits = a.none_waits;
    }

  end_start_alone :
      (s : Shared B) (p : Provider B J) (name : String) (o i : ℕ) (state : PipelineState B)
      (r : B × RequestResult ℤ)
      → Agrees s p
      → IsInjective s.names
      → find s name ≡ some (o, state)
      → Agrees (end_start s o i state r) (started backend p name state i r).0
  unfolding end_start started
  end_start_alone s p name o i state (b, result) a inj e =
      if-both Same result.success _ _ _ _
        (ends s p a inj name o state (record { pipeline = b; active = true; iteration = i })
          (λ n. n) e)
        (ends s p a inj name o state (record state { pipeline = b }) decrement e)

  pub start_alone :
      (s : Shared B) (p : Provider B J) (hash : ℕ) (name : String) (i : ℕ)
      → Agrees s p
      → IsInjective s.names
      → Agrees
          (run backend s (start hash name i ∷ resume 0 ∷ []))
          (Iterations.start backend p hash name i).0
  unfolding run step Iterations.start end_task begin_start find
  start_alone s p hash name i a inj =
      let here : Agrees (resume_task backend s 0) p =
        subst (λ t. Agrees t p) (sym (idle_resume backend s a.none_waits)) a in
      let after : Shared B → Response B J → Type 0 = λ t r. Agrees (resume_task backend t 0) r.0 in
      let later = record s { num_active_pipelines = increment s.num_active_pipelines } in
      let later' = record p { num_active_pipelines = increment p.num_active_pipelines } in
      if-both_same after (not (hash == s.group_hash)) (not (hash == p.group_hash)) _ _ _ _
        (ap (λ h. not (hash == h)) a.hash) here
        (found_alone s p name after _ _ a
          (λ r same_. subst (λ q. Agrees (resume_task backend s 0) q) (sym same_) here)
          λ o state e.
            either after state.active (not (state.iteration == 0) && leb i state.iteration) _ _ _ _
              _ here here
              (rw (resumed backend later (starting o i) state (get_elem?-find s name o state e)) (
                end_start_alone later later' name o i state (backend.start i state.pipeline)
                  (counted-Agrees s p a inj increment) inj e)))

-- ===== src/Provider/Threads/Alone.antt =====
-- src/ProviderImpl.hpp: a handler that no other overlaps leaves what the handlers of Iterations and
-- Pipelines leave.
use mochi_colza.Base.{
  nat_eq, string_eq, String, false, ℕ, ◌≡◌, Bool, some, [], ◌∷◌, arith, inl, inr, Option-cases,
  ◌&&◌, ◌∙◌, ap, ℤ, sym, subst,
}
use mochi_colza.Base.Map.{Map, insert, lookup-insert}
use mochi_colza.Result.{RequestResult}
use mochi_colza.Backend.{Backend}
use mochi_colza.Provider.State.{PipelineState, decrement}
use mochi_colza.Provider.Threads.{
  find, call, destroy_object, write, end_cleanup, end_execute, end_task, resume_task, step, run,
}
use mochi_colza.Provider.Shared.{executing, cleaning, Shared, destroy, execute, resume}
use mochi_colza.Provider.Threads.Arrivals.{get_elem?-find}
use mochi_colza.Provider.State.{Provider, rejects_token}
use mochi_colza.Provider.Pipelines.{Host, destroy_pipeline, check_pipeline}
use mochi_colza.Provider.Iterations
use mochi_colza.Provider.Iterations.{started, cleaned, executed}
use mochi_colza.Provider.Requests
use mochi_colza.Provider.Requests.{Request, serve}
use mochi_colza.Provider.Threads.View.{
  IsInjective, alone, Agrees, find_of_view, found_of_view, resumed, idle_resume, destroyed-Agrees,
  find-write,
}
use mochi_colza.Provider.Threads.Pairs.{during_alone, if-both, Same}
use mochi_colza.Provider.Threads.Returning.{
  ends, cleanup_alone, stage_alone, abort_alone, start_alone,
}

module _ {B J : Type 0} (backend : Backend B) where
  -- The write of `execute` before the one of `cleanup` does not show.
  overwritten :
      (t : Shared B) (q : Provider B J) (name : String) (x y : PipelineState B)
      (m : Map String (PipelineState B))
      → Agrees t (record q { pipelines = insert name x (insert name y m) })
      → Agrees t (record q { pipelines = insert name x m })
  overwritten t q name x y m a = record {
    hash = a.hash;
    count = a.count;
    same = λ k.
        a.same k
        ∙ ground (
          arith,
          lookup-insert name k x (insert name y m),
          lookup-insert name k y m,
          lookup-insert name k x m,
        );
    none_waits = a.none_waits;
  }

  end_cleanup_over :
      (s : Shared B) (p : Provider B J) (name : String) (o : ℕ) (state new : PipelineState B)
      (r : B × RequestResult ℤ)
      → Agrees s p
      → IsInjective s.names
      → find s name ≡ some (o, state)
      → Agrees (end_cleanup (write s o new) o new r) (cleaned backend p name new r).0
  unfolding end_cleanup cleaned
  end_cleanup_over s p name o state new (b, result) a inj e =
      let p' = record p { pipelines = insert name new p.pipelines } in
      let a' : Agrees (write s o new) p' = ends backend s p a inj name o state new (λ n. n) e in
      let e' = find-write s name o state new e in
      if-both Same result.success _ _ _ _
        (overwritten _ (record p { num_active_pipelines = decrement p.num_active_pipelines }) name _
          new p.pipelines
          (ends backend (write s o new) p' a' inj name o new
            (record new { pipeline = b; active = false }) decrement e'))
        (overwritten _ p name _ new p.pipelines (
          ends backend (write s o new) p' a' inj name o new (record new { pipeline = b }) (λ n. n)
            e'))

  execute_alone :
      (s : Shared B) (p : Provider B J) (name : String) (i : ℕ) (auto_cleanup : Bool)
      → Agrees s p
      → IsInjective s.names
      → Agrees
          (run backend s (execute name i auto_cleanup ∷ resume 0 ∷ resume 0 ∷ []))
          (Iterations.execute backend p name i auto_cleanup).0
  unfolding run step Iterations.execute end_task end_execute executed find
  execute_alone s p name i auto_cleanup a inj =
      during_alone backend s p name i (λ o. executing o i auto_cleanup) _
        (λ t. resume_task backend (resume_task backend t 0) 0) a
        (ap (λ t. resume_task backend t 0) (idle_resume backend s a.none_waits)
          ∙ idle_resume backend s a.none_waits)
        λ o state e.
          let home = get_elem?-find s name o state e in
          let (b, result) = backend.execute i state.pipeline in
          let new : PipelineState B = record state { pipeline = b } in
          let written = write s o new in
          let p' = record p { pipelines = insert name new p.pipelines } in
          let a' : Agrees written p' = ends backend s p a inj name o state new (λ n. n) e in
          rw (resumed backend s (executing o i auto_cleanup) state home) (
            if-both (λ t r. Agrees (resume_task backend t 0) r.0) (result.success && auto_cleanup)
              (call written (cleaning o i)) written _ _
              (rw
                (resumed backend written (cleaning o i) new
                  (get_elem?-find written name o new (find-write s name o state new e)))
                (end_cleanup_over s p name o state new (backend.cleanup i b) a inj e))
              (subst (λ t. Agrees t p') (sym (idle_resume backend written a.none_waits)) a'))

  destroy_alone :
      (s : Shared B) (p : Provider B J) (token name : String)
      → Agrees s p
      → IsInjective s.names
      → rejects_token p token ≡ false
      → Agrees (run backend s (destroy name ∷ [])) (destroy_pipeline backend p token name).0
  unfolding run step destroy_pipeline destroy_object
  destroy_alone s p token name a inj accepted = elim (Option-cases (find s name)) [
    | inl none_ ↦ rw (none_, accepted, find_of_view s name p a none_, destroy_pipeline) a
    | inr ((o, state), found_) ↦
        rw (found_, accepted, found_of_view s name p o state a found_)
          (if-both Same state.active _ _ _ _ a (
            destroyed-Agrees s p name o state
              (record state { pipeline = (backend.destroy state.pipeline).0 }) a inj found_))
  ]

  check_state : (p : Provider B J) (name : String) → (check_pipeline p name).0 ≡ p
  unfolding check_pipeline
  check_state p name = ground arith

  -- `create` makes its backend before, and `check` changes nothing; a `destroy` with a wrong token is
  -- refused first.
  abbrev pub IsServed : Provider B J → Request → Type 0
  IsServed p (Requests.create token name type config library) = ⊥
  IsServed p (Requests.destroy token name) = rejects_token p token ≡ false
  IsServed p _ = Unit

  -- Where no handler is on the way, and no two names lead to one object: a request to destroy,
  -- check, start, stage, execute, clean up or abort, the token being right, leaves the same as the
  -- handler that runs in one piece.
  pub alone-serve :
      (host : Host B J) (s : Shared B) (p : Provider B J) (r : Request)
      → Agrees s p
      → IsInjective s.names
      → IsServed p r
      → Agrees (run backend s (alone r)) (serve backend host p r).0
  unfolding alone serve run
  alone-serve host s p (Requests.create token name type config library) a inj h = absurd h
  alone-serve host s p (Requests.destroy token name) a inj h = destroy_alone s p token name a inj h
  alone-serve host s p (Requests.check name) a inj h =
      subst (λ q. Agrees s q) (sym (check_state p name)) a
  alone-serve host s p (Requests.start hash name i) a inj h =
      start_alone backend s p hash name i a inj
  alone-serve host s p (Requests.stage name args) a inj h = stage_alone backend s p a inj name args
  alone-serve host s p (Requests.execute name i auto_cleanup) a inj h =
      execute_alone s p name i auto_cleanup a inj
  alone-serve host s p (Requests.cleanup name i) a inj h = cleanup_alone backend s p a inj name i
  alone-serve host s p (Requests.abort name i) a inj h = abort_alone backend s p a inj name i

-- ===== src/Provider/Threads/View.antt =====
-- src/ProviderImpl.hpp: the states of the two models, with and without overlapping handlers, that are
-- the same to clients.
use mochi_colza.Base.{
  nat_eq, string_eq, String, ℕ, ◌≡◌, refl, Option, none, some, List, [], ◌∷◌, ◌==◌, if◌then◌else◌,
  arith, get_elem?, set, inl, inr, Option-cases, ◌∙◌, ap, sym, subst,
}
use mochi_colza.Base.Map.{Map, lookup, insert, erase, lookup-insert, lookup-erase, erase-insert}
use mochi_colza.Backend.{Backend}
use mochi_colza.Provider.State.{PipelineState}
use mochi_colza.Provider.Threads.{find, call, write, end_task, resume_taken, resume_task}
use mochi_colza.Provider.Shared.{
  Task, object, Shared, Event, destroy, start, stage, execute, cleanup, abort, resume, take_out,
}
use mochi_colza.Provider.Threads.Sums.{get_elem?-set}
use mochi_colza.Provider.Threads.Arrivals.{get_elem?-find}
use mochi_colza.Provider.State.{Provider}
use mochi_colza.Provider.Requests
use mochi_colza.Provider.Requests.{Request, serve}

-- No two names lead to one object.
abbrev pub IsInjective : Map String ℕ → Type 0
IsInjective names =
    (m n : String) (o : ℕ) → lookup m names ≡ some o → lookup n names ≡ some o → m ≡ n

module _ {B : Type 0} where
  -- What a name leads to.
  unfoldable pub view : Shared B → String → Option (PipelineState B)
  unfolding find
  view s name = elim (find s name) [ none ↦ none | some (o, state) ↦ some state ]

  -- The request as a schedule of its own.
  unfoldable pub alone : Request → List (Event B)
  alone (Requests.create token name type config library) = []
  alone (Requests.destroy token name) = destroy name ∷ []
  alone (Requests.check name) = []
  alone (Requests.start hash name i) = start hash name i ∷ resume 0 ∷ []
  alone (Requests.stage name args) = stage name args ∷ resume 0 ∷ []
  alone (Requests.execute name i auto_cleanup) =
      execute name i auto_cleanup ∷ resume 0 ∷ resume 0 ∷ []
  alone (Requests.cleanup name i) = cleanup name i ∷ resume 0 ∷ []
  alone (Requests.abort name i) = abort name i ∷ resume 0 ∷ []

  pub named_of_find :
      (s : Shared B) (name : String) (o : ℕ) (state : PipelineState B)
      → find s name ≡ some (o, state)
      → lookup name s.names ≡ some o
  unfolding find
  named_of_find s name o state e = elim (Option-cases (lookup name s.names)) [
    | inl nothing ↦ ground arith
    | inr (p, named) ↦ elim (Option-cases (get_elem? s.objects p)) [
      | inl nothing ↦ ground arith
      | inr (t, held) ↦ ground arith
    ]
  ]

  pub view-write :
      (s : Shared B) (name m : String) (o : ℕ) (state new : PipelineState B) (count : ℕ)
      (tasks : List Task)
      → IsInjective s.names
      → find s name ≡ some (o, state)
      → view
          (record s { objects = set s.objects o new; num_active_pipelines = count; tasks = tasks })
          m
        ≡ (if name == m then some new else view s m)
  unfolding view find
  view-write s name m o state new count tasks inj e =
      let home = get_elem?-find s name o state e in
      let named = named_of_find s name o state e in
      elim (Option-cases (lookup m s.names)) [
        | inl nothing ↦ ground (arith, named, string_eq.same_iff name m)
        | inr (q, there) ↦ ground (
          arith,
          named,
          inj name m o,
          string_eq.same_iff name m,
          get_elem?-set s.objects o q state new home,
        )
      ]

module _ {B J : Type 0} where
  -- A state of Threads, with no handler on the way, and one of Iterations are the same to clients.
  pub record Agrees (s : Shared B) (p : Provider B J) : Type 0 where
    pub hash : s.group_hash ≡ p.group_hash
    pub count : s.num_active_pipelines ≡ p.num_active_pipelines
    pub same : (name : String) → view s name ≡ lookup name p.pipelines
    pub none_waits : s.tasks ≡ []

  pub find_of_view :
      (s : Shared B) (name : String) (p : Provider B J)
      → Agrees s p
      → find s name ≡ none
      → lookup name p.pipelines ≡ none
  unfolding view
  find_of_view s name p a e = sym (a.same name) ∙ rw (e, view)

  pub found_of_view :
      (s : Shared B) (name : String) (p : Provider B J) (o : ℕ) (state : PipelineState B)
      → Agrees s p
      → find s name ≡ some (o, state)
      → lookup name p.pipelines ≡ some state
  unfolding view
  found_of_view s name p o state a e = sym (a.same name) ∙ rw (e, view)

  -- A handler ends, and writes a new state.
  pub written-Agrees :
      (s : Shared B) (p : Provider B J) (name : String) (o : ℕ) (state new : PipelineState B)
      (count count' : ℕ)
      → Agrees s p
      → count ≡ count'
      → IsInjective s.names
      → find s name ≡ some (o, state)
      → Agrees
          (record s { objects = set s.objects o new; num_active_pipelines = count })
          (record p { pipelines = insert name new p.pipelines; num_active_pipelines = count' })
  written-Agrees s p name o state new count count' a same_ inj e = record {
    hash = a.hash;
    count = same_;
    same = λ m.
        view-write s name m o state new count s.tasks inj e
        ∙ (ap (λ x. if name == m then some new else x) (a.same m)
            ∙ sym (lookup-insert name m new p.pipelines));
    none_waits = a.none_waits;
  }

module _ {B : Type 0} (backend : Backend B) where
  -- A backend returns to the handler that has called it last.
  pub resumed :
      (s : Shared B) (t : Task) (state : PipelineState B)
      → get_elem? s.objects (object t) ≡ some state
      → resume_task backend (call s t) 0 ≡ end_task backend s t state
  unfolding resume_task resume_taken take_out
  resumed s t state held = rw (held, resume_taken) refl

  pub idle_resume : (s : Shared B) → s.tasks ≡ [] → resume_task backend s 0 ≡ s
  unfolding resume_task resume_taken take_out
  idle_resume s none_ = ground arith

module _ {B J : Type 0} where
  pub erased-Agrees :
      (s : Shared B) (p : Provider B J) (name : String)
      → Agrees s p
      → Agrees
          (record s { names = erase name s.names })
          (record p { pipelines = erase name p.pipelines })
  unfolding view find
  erased-Agrees s p name a = record {
    hash = a.hash;
    count = a.count;
    same =
        λ k. ground (arith, a.same k, lookup-erase name k s.names, lookup-erase name k p.pipelines);
    none_waits = a.none_waits;
  }

  -- A pipeline is destroyed: the object is written, and its name goes.
  pub destroyed-Agrees :
      (s : Shared B) (p : Provider B J) (name : String) (o : ℕ) (state new : PipelineState B)
      → Agrees s p
      → IsInjective s.names
      → find s name ≡ some (o, state)
      → Agrees
          (record s { objects = set s.objects o new; names = erase name s.names })
          (record p { pipelines = erase name p.pipelines })
  destroyed-Agrees s p name o state new a inj e =
      let written =
        written-Agrees s p name o state new s.num_active_pipelines p.num_active_pipelines a a.count
          inj e in
      subst
        (λ (m : Map String (PipelineState B)).
          Agrees (record s { objects = set s.objects o new; names = erase name s.names })
            (record p { pipelines = m }))
        (erase-insert name new p.pipelines)
        (erased-Agrees (record s { objects = set s.objects o new })
          (record p { pipelines = insert name new p.pipelines }) name written)

module _ {B : Type 0} where
  pub find-write :
      (s : Shared B) (name : String) (o : ℕ) (state new : PipelineState B)
      → find s name ≡ some (o, state)
      → find (write s o new) name ≡ some (o, new)
  unfolding find
  find-write s name o state new e =
      let home = get_elem?-find s name o state e in
      ground (arith, named_of_find s name o state e, get_elem?-set s.objects o o state new home)

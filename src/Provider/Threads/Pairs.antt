-- ===== src/Provider/Threads/Pairs.antt =====
-- src/ProviderImpl.hpp: the tests of a handler, in the two models at once.
use mochi_colza.Base.{
  nat_eq, string_eq, String, true, false, not, ℕ, ◌≡◌, refl, Bool, some, ◌==◌, if◌then◌else◌, inl,
  inr, Option-cases, ◌&&◌, ◌||◌, sym, subst,
}
use mochi_colza.Backend.{Backend}
use mochi_colza.Provider.State.{PipelineState}
use mochi_colza.Provider.Threads.{find, found, call, begin_during}
use mochi_colza.Provider.Shared.{Task, Shared}
use mochi_colza.Provider.State.{Provider, Response, find_pipeline}
use mochi_colza.Provider.Iterations
use mochi_colza.Provider.Iterations.{started, cleaned, executed}
use mochi_colza.Provider.Threads.View.{Agrees, find_of_view, found_of_view}

module _ {B J : Type 0} where
  -- Two tests, and one that joins them.
  pub guarded :
      (P : Shared B → Response B J → Type 0) (b c : Bool) (s t : Shared B) (q r w : Response B J)
      → P s q
      → P s r
      → P t w
      → P (if b && c then t else s) (if not b then q else if not c then r else w)
  guarded P true true s t q r w x y z = z
  guarded P true false s t q r w x y z = y
  guarded P false c s t q r w x y z = x

  pub either :
      (P : Shared B → Response B J → Type 0) (b c : Bool) (s t : Shared B) (q r w : Response B J)
      → P s q
      → P s r
      → P t w
      → P (if b || c then s else t) (if b then q else if c then r else w)
  either P true c s t q r w x y z = x
  either P false true s t q r w x y z = y
  either P false false s t q r w x y z = z

  pub if-both :
      (P : Shared B → Response B J → Type 0) (b : Bool) (s t : Shared B) (q r : Response B J)
      → P s q
      → P t r
      → P (if b then s else t) (if b then q else r)
  if-both P true s t q r x y = x
  if-both P false s t q r x y = y

  pub if-both_same :
      (P : Shared B → Response B J → Type 0) (b c : Bool) (s t : Shared B) (q r : Response B J)
      → b ≡ c
      → P s q
      → P t r
      → P (if b then s else t) (if c then q else r)
  if-both_same P b c s t q r e x y =
      subst (λ d. P (if b then s else t) (if d then q else r)) e (if-both P b s t q r x y)

  abbrev pub Same : Shared B → Response B J → Type 0
  Same s r = Agrees s r.0

  -- What follows FIND_PIPELINE, without a pipeline and with one.
  pub found_alone :
      (s : Shared B) (p : Provider B J) (name : String) (P : Shared B → Response B J → Type 0)
      (rest : ℕ → PipelineState B → Shared B) (rest' : PipelineState B → Response B J)
      → Agrees s p
      → ((r : Response B J) → r.0 ≡ p → P s r)
      → ((o : ℕ) (state : PipelineState B)
          → find s name ≡ some (o, state)
          → P (rest o state) (rest' state))
      → P (found s (find s name) rest) (find_pipeline p name rest')
  found_alone s p name P rest rest' a nothing_ goes = elim (Option-cases (find s name)) [
    | inl none_ ↦ rw (none_, find_of_view s name p a none_, find_pipeline) (nothing_ _ refl)
    | inr ((o, state), found_) ↦
        rw (found_, found_of_view s name p o state a found_, find_pipeline) (goes o state found_)
  ]

module _ {B J : Type 0} (backend : Backend B) where
  pub during_alone :
      (s : Shared B) (p : Provider B J) (name : String) (i : ℕ) (task : ℕ → Task)
      (rest : PipelineState B → Response B J) (go_on : Shared B → Shared B)
      → Agrees s p
      → go_on s ≡ s
      → ((o : ℕ) (state : PipelineState B)
          → find s name ≡ some (o, state)
          → Agrees (go_on (call s (task o))) (rest state).0)
      → Agrees
          (go_on (begin_during s name i task))
          (find_pipeline p name λ state. Iterations.during backend p state i (rest state)).0
  unfolding begin_during
  during_alone s p name i task rest go_on a nothing_ goes =
      let here : Agrees (go_on s) p = subst (λ t. Agrees t p) (sym nothing_) a in
      elim (Option-cases (find s name)) [
        | inl none_ ↦ rw (none_, find_of_view s name p a none_, find_pipeline) here
        | inr ((o, state), found_) ↦
            rw (found_, found_of_view s name p o state a found_, find_pipeline)
              (guarded (λ t r. Agrees (go_on t) r.0) state.active (state.iteration == i) s
                (call s (task o)) _ _ _ here here (goes o state found_))
      ]

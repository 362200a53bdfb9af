-- ===== src/Provider/Threads/Leaving.antt =====
-- src/ProviderImpl.hpp: the counter along exclusive schedules, and when `leave` goes on.
use mochi_colza.Base.{
  nat_eq, string_eq, true, false, ℕ, ◌+◌, ◌^◌, ◌≤◌, ◌<◌, ◌≡◌, refl, some, List, [], ◌∷◌, ◌++◌, ◌==◌,
  arith, length, get_elem?, inl, inr, Option-cases, ◌↔◌,
}
use mochi_colza.Backend.{Backend}
use mochi_colza.Provider.State.{PipelineState}
use mochi_colza.Provider.Invariant.{weight}
use mochi_colza.Provider.Histories.{weight_le}
use mochi_colza.Provider.Threads.{try_leave, step, run}
use mochi_colza.Provider.Threads.Updating.{at-update_named, sum-update_named}
use mochi_colza.Provider.Shared.{
  change_group, update_addresses, Task, starting, staging, executing, cleaning, aborting, Shared,
  Event, install, destroy, start, stage, execute, cleanup, abort, resume, leave,
}
use mochi_colza.Provider.Threads.Sums.{sum, at-le-sum, sum-le-length, sum-eq-zero}
use mochi_colza.Provider.Threads.Exclusive.{starts, Sound, IsExclusive, AreExclusive, if-all}
use mochi_colza.Provider.Threads.Arrivals.{
  begin_start-Sound, begin_during-Sound, install_object-Sound, destroy_object-Sound,
}
use mochi_colza.Provider.Threads.Returns.{resume_task-Sound}

starts_le : (t : Task) → starts t ≤ 1
starts_le (starting o i) = omega arith
starts_le t = omega arith

module _ {B : Type 0} where
  -- No object is active, in the map or not, and no start is on its way.
  pub record IsQuiet (s : Shared B) : Type 0 where
    pub inactive :
        (o : ℕ) (state : PipelineState B)
        → get_elem? s.objects o ≡ some state
        → state.active ≡ false
    pub no_start : sum starts s.tasks ≡ 0

  try_leave-Sound : (s : Shared B) → Sound s → Sound (try_leave s)
  unfolding try_leave
  try_leave-Sound s v =
      if-all Sound (s.num_active_pipelines == 0) _ _
        (λ _. record { starting = v.starting; ending = v.ending; counted = v.counted }) (λ _. v)

module _ {B : Type 0} (backend : Backend B) where
  -- Every step of an exclusive schedule keeps what holds in every state.
  pub step-Sound :
      (s : Shared B) (e : Event B) → Sound s → IsExclusive s e → Sound (step backend s e)
  unfolding step
  step-Sound s (install name b) v h = install_object-Sound s name b v
  step-Sound s (destroy name) v h = destroy_object-Sound backend s name v
  step-Sound s (start hash name i) v h = begin_start-Sound s hash name i v h
  step-Sound s (stage name args) v h =
      begin_during-Sound s name args.iteration (λ o. staging o args) v (λ o p. refl) (λ o. refl)
        (λ o p state e. ground (arith, v.starting p, v.ending p))
  step-Sound s (execute name i auto_cleanup) v h =
      begin_during-Sound s name i (λ o. executing o i auto_cleanup) v (λ o p. refl) (λ o. refl)
        (λ o p state e. ground (arith, h o state e))
  step-Sound s (cleanup name i) v h =
      begin_during-Sound s name i (λ o. cleaning o i) v (λ o p. refl) (λ o. refl)
        (λ o p state e. ground (arith, h o state e))
  step-Sound s (abort name i) v h =
      begin_during-Sound s name i (λ o. aborting o i) v (λ o p. refl) (λ o. refl)
        (λ o p state e. ground (arith, h o state e))
  step-Sound s (resume n) v h = resume_task-Sound backend s n v
  step-Sound s leave v h = try_leave-Sound s v
  step-Sound s (change_group id) v h = record {
    starting = v.starting;
    ending = v.ending;
    counted = v.counted;
  }
  step-Sound s (update_addresses addresses) v h =
      let same = λ (o : ℕ). at-update_named backend addresses s.names o s.objects in
      record {
        starting = λ o. omega (arith, v.starting o, same o);
        ending = λ o. omega (arith, v.ending o, same o);
        counted = rw (sum-update_named backend addresses s.names s.objects) v.counted;
      }

  pub run-append :
      (s : Shared B) (es fs : List (Event B))
      → run backend s (es ++ fs) ≡ run backend (run backend s es) fs
  unfolding run
  run-append s [] fs = refl
  run-append s (e ∷ es) fs = run-append (step backend s e) es fs

  -- The counter is right along every schedule in which no two handlers that change the phase of a
  -- pipeline overlap on it: whatever else overlaps, whatever the backends answer, and in whatever
  -- order they return.
  pub run-Sound :
      (s : Shared B) (es : List (Event B))
      → Sound s
      → AreExclusive backend s es
      → Sound (run backend s es)
  unfolding run
  run-Sound s [] v h = v
  run-Sound s (e ∷ es) v h = run-Sound (step backend s e) es (step-Sound s e v h.0) h.1

module _ {B : Type 0} (s : Shared B) (v : Sound s)
    (few : length s.objects + length s.tasks < 2 ^ 64) where
  pub small : sum weight s.objects + sum starts s.tasks < 2 ^ 64
  small = omega (
    arith,
    sum-le-length weight weight_le s.objects,
    sum-le-length starts (λ t. starts_le t) s.tasks,
  )

  IsQuiet-of_zero : s.num_active_pipelines ≡ 0 → IsQuiet s
  IsQuiet-of_zero e = record {
    inactive = λ o state held. ground (arith, small, v.counted, at-le-sum weight s.objects o);
    no_start = omega (arith, small, v.counted);
  }

  zero_of_quiet : IsQuiet s → s.num_active_pipelines ≡ 0
  zero_of_quiet q =
      let none_ = sum-eq-zero weight s.objects (λ o. elim (Option-cases (get_elem? s.objects o)) [
        | inl nothing ↦ ground arith
        | inr (state, held) ↦ ground (arith, q.inactive o state held)
      ]) in
      omega (arith, v.counted, none_, q.no_start)

  left_iff : s.left ≡ false → ((try_leave s).left ≡ true) ↔ (s.num_active_pipelines ≡ 0)
  unfolding try_leave
  left_iff here = (λ e. ground arith, λ e. ground arith)

module _ {B : Type 0} (backend : Backend B) where
  -- After every schedule in which no two handlers that change the phase of a pipeline overlap on it,
  -- from a state where the invariant holds, the provider not having left in it, as long as there are
  -- fewer than 2^64 objects and handlers, `leave` goes on exactly when no object is active, in the map or not, and no start is on its way.
  pub leave-IsQuiet :
      (s : Shared B) (es : List (Event B))
      → Sound s
      → AreExclusive backend s es
      → let t = run backend s es in
        length t.objects + length t.tasks < 2 ^ 64
        → t.left ≡ false
        → ((step backend t leave).left ≡ true) ↔ IsQuiet t
  unfolding step
  leave-IsQuiet s es v h few here =
      let t = run backend s es in
      let sound = run-Sound backend s es v h in
      let zero_ = left_iff t sound few here in
      (
        λ gone. IsQuiet-of_zero t sound few (zero_.0 gone),
        λ quiet. zero_.1 (zero_of_quiet t sound few quiet),
      )

-- ===== src/Provider/Threads/Exclusive.antt =====
-- src/ProviderImpl.hpp: schedules in which no two handlers that change the phase of a pipeline
-- overlap on it, and what holds in every state on the way.
use mochi_colza.Base.{
  nat_eq, string_eq, String, true, false, ℕ, ◌+◌, ◌%◌, ◌^◌, ◌≤◌, ◌≡◌, refl, Bool, Option, none,
  some, List, [], ◌∷◌, ◌==◌, if◌then◌else◌,
}
use mochi_colza.Backend.{Backend}
use mochi_colza.Provider.State.{PipelineState}
use mochi_colza.Provider.Invariant.{weight}
use mochi_colza.Provider.Threads.{find, found, step}
use mochi_colza.Provider.Shared.{
  Task, starting, staging, executing, cleaning, aborting, Shared, Event, start, execute, cleanup,
  abort,
}
use mochi_colza.Provider.Threads.Sums.{sum, at}

-- 1 for the tasks of `start` on an object, and for those of `execute`, `cleanup` and `abort`.
abbrev pub starts_on : ℕ → Task → ℕ
starts_on o (starting p i) = if p == o then 1 else 0
starts_on o _ = 0

abbrev pub ends_on : ℕ → Task → ℕ
ends_on o (starting p i) = 0
ends_on o (staging p args) = 0
ends_on o (executing p i auto_cleanup) = if p == o then 1 else 0
ends_on o (cleaning p i) = if p == o then 1 else 0
ends_on o (aborting p i) = if p == o then 1 else 0

abbrev pub starts : Task → ℕ
starts (starting p i) = 1
starts _ = 0

module _ {B : Type 0} where
  -- What holds in every state: an object has one handler that changes its phase at most; one that
  -- starts it finds it inactive when the backend returns, and any other finds it active. The
  -- counter is the number of active objects and of starts on the way.
  pub record Sound (s : Shared B) : Type 0 where
    pub starting : (o : ℕ) → sum (starts_on o) s.tasks + at weight s.objects o ≤ 1
    pub ending : (o : ℕ) → sum (ends_on o) s.tasks ≤ at weight s.objects o
    pub counted : s.num_active_pipelines ≡ (sum weight s.objects + sum starts s.tasks) % 2 ^ 64

  -- No handler that changes the phase of the pipeline is on the way.
  abbrev pub IsFree : Shared B → String → Type 0
  IsFree s name =
      (o : ℕ) (state : PipelineState B)
      → find s name ≡ some (o, state)
      → (sum (starts_on o) s.tasks ≡ 0) × (sum (ends_on o) s.tasks ≡ 0)

  abbrev pub IsExclusive : Shared B → Event B → Type 0
  IsExclusive s (start hash name i) = IsFree s name
  IsExclusive s (execute name i auto_cleanup) = IsFree s name
  IsExclusive s (cleanup name i) = IsFree s name
  IsExclusive s (abort name i) = IsFree s name
  IsExclusive s _ = Unit

  -- No two overlap, along the schedule.
  abbrev pub AreExclusive : Backend B → Shared B → List (Event B) → Type 0
  AreExclusive backend s [] = Unit
  AreExclusive backend s (e ∷ es) = IsExclusive s e × AreExclusive backend (step backend s e) es

  -- What holds of the state, and of every state that the rest of a handler may leave.
  pub found-all :
      (P : Shared B → Type 0) (s : Shared B) (r : Option (ℕ × PipelineState B))
      (rest : ℕ → PipelineState B → Shared B)
      → P s
      → ((o : ℕ) (state : PipelineState B) → r ≡ some (o, state) → P (rest o state))
      → P (found s r rest)
  found-all P s none rest h k = h
  found-all P s (some (o, state)) rest h k = k o state refl

  pub if-all :
      (P : Shared B → Type 0) (b : Bool) (s t : Shared B)
      → (b ≡ true → P s)
      → (b ≡ false → P t)
      → P (if b then s else t)
  if-all P true s t h k = h refl
  if-all P false s t h k = k refl

-- ===== src/Admin/Shutdown.antt =====
-- src/Admin.cpp: the servers that an administrator shuts down, one or a whole group.
use mochi_colza.Base.{
  ◌≡◌, ap, sym, subst, ◌∙◌, String, true, List, [], ◌∷◌, arith, All, Bool-cases, inl, inr,
  if◌then◌else◌,
}
use mochi_colza.Result.{Outcome, ok, throw_std}
use mochi_colza.Client.Addresses.{Address}
use mochi_colza.Client.Network.{handle_eq}
use mochi_colza.Client.Connect.{Member, View}
use mochi_colza.Admin.Operations.{Engine, text_of, Ended, finished, run_threads, with_group}
use mochi_colza.Admin.Everywhere.{outcome_cases, joined_ok, joined_failed}

-- `shutdown` is the engine's `shutdown_remote_engine`.
module _ {N : Type 0} (engine : Engine) (shutdown : N → Address → N × Outcome Unit) where
  -- Admin::shutdownServer
  unfoldable pub shutdown_server : N → Address → N × Outcome Unit
  shutdown_server net address =
      if engine.lookup_finds address
      then shutdown net address
      else (net, throw_std "address not found")

  abbrev pub shutdown_member : N → Member → N × Outcome Unit
  shutdown_member net member = shutdown net (text_of engine member)

  -- Admin::shutdownGroup. The size is 0 where SSG does not give it.
  unfoldable pub shutdown_group : N → View → String → N × Ended
  unfolding run_threads
  shutdown_group net view ssg_file =
      with_group net view ssg_file
        (run_threads shutdown_member net (if view.has_size then view.members else []))

-- `IsStopping` says that the engine at an address was told to finalize.
module _ {N : Type 0} (engine : Engine) (shutdown : N → Address → N × Outcome Unit)
    (IsStopping : N → Address → Type 0)
    (stops : (net : N) (a : Address) → (shutdown net a).1 ≡ ok tt → IsStopping (shutdown net a).0 a)
    (stays : (net : N) (a b : Address) → IsStopping net b → IsStopping (shutdown net a).0 b) where
  run_threads_stay-IsStopping :
      (members : List Member) (net : N) (a : Address)
      → IsStopping net a
      → IsStopping (run_threads (shutdown_member engine shutdown) net members).0 a
  unfolding run_threads
  run_threads_stay-IsStopping [] net a h = h
  run_threads_stay-IsStopping (m ∷ members) net a h =
      let first = shutdown_member engine shutdown net m in
      let others = λ (net : N). run_threads (shutdown_member engine shutdown) net members in
      let here = stays net (text_of engine m) a h in
      elim (outcome_cases first.1) [
        | inl done ↦
            subst (λ (r : N × Ended). IsStopping r.0 a) (sym (joined_ok others first done))
              (run_threads_stay-IsStopping members first.0 a here)
        | inr fails ↦
            subst (λ (r : N × Ended). IsStopping r.0 a) (sym (joined_failed others first fails))
              here
      ]

  run_threads-IsStopping :
      (members : List Member) (net : N)
      → let after = run_threads (shutdown_member engine shutdown) net members in
        after.1 ≡ finished → All (λ m. IsStopping after.0 (text_of engine m)) members
  unfolding run_threads
  run_threads-IsStopping [] net e = tt
  run_threads-IsStopping (m ∷ members) net e =
      let first = shutdown_member engine shutdown net m in
      let others = λ (net : N). run_threads (shutdown_member engine shutdown) net members in
      elim (outcome_cases first.1) [
        | inr fails ↦ absurd (ground (arith, ap (λ r. r.1) (joined_failed others first fails), e))
        | inl done ↦
            let same = joined_ok others first done in
            subst (λ (r : N × Ended). All (λ m. IsStopping r.0 (text_of engine m)) (m ∷ members))
              (sym same)
              (
                run_threads_stay-IsStopping members first.0 (text_of engine m)
                    (stops net (text_of engine m) done),
                run_threads-IsStopping members first.0 (ap (λ r. r.1) (sym same) ∙ e),
              )
      ]

  -- If a call of shutdown_remote_engine that comes back has told the engine at its address to
  -- finalize, and no call takes that back, and shutdownGroup comes to its end, with the size of the
  -- group known, then the engine of every member of the group was told to finalize.
  pub shutdown_group-IsStopping :
      (net : N) (view : View) (ssg_file : String)
      → view.has_size ≡ true
      → let after = shutdown_group engine shutdown net view ssg_file in
        after.1 ≡ finished → All (λ m. IsStopping after.0 (text_of engine m)) view.members
  unfolding shutdown_group
  shutdown_group-IsStopping net view ssg_file sized e = elim (Bool-cases view.loads) [
    | inr no_file ↦ absurd (ground arith)
    | inl file ↦ elim (Bool-cases view.observes) [
      | inr blind ↦ absurd (ground arith)
      | inl observed ↦
          rw (file, observed, sized) (run_threads-IsStopping view.members net (ground arith))
    ]
  ]

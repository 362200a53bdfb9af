-- ===== src/Client/Iterating.antt =====
-- examples/distributed/client.cpp: the loop where the group does not change and the backends agree.
use mochi_colza.Base.{
  ℕ, ◌+◌, ◌<◌, ◌≡◌, ◌⊎◌, refl, sym, subst, ◌∙◌, zero, suc, true, false, none, some, List, [], ◌∷◌,
  arith, String, ◌==◌, nat_eq, string_eq, inl, inr, Bool-cases, length, ◌≢◌,
}
use mochi_colza.Result.{ok}
use mochi_colza.Backend.{Backend, Bulk}
use mochi_colza.Provider.Pipelines.{Host}
use mochi_colza.Provider.Requests
use mochi_colza.Provider.Requests.{Request}
use mochi_colza.Provider.Phases.{Phase, idle, running}
use mochi_colza.Client.Network.{Network, call, handle_eq}
use mochi_colza.Client.PipelineHandle
use mochi_colza.Client.PipelineHandle.{PipelineHandleImpl, synchronous, exposed}
use mochi_colza.Client.Connect.{Client, sent_ok, DistributedImpl}
use mochi_colza.Client.Distributed.{goes_on, send_all, attempt}
use mochi_colza.Client.Start.{Refresh, returns_with_ok, ended, start_loop}
use mochi_colza.Client.AllOrNothing.{sent_ok_of}
use mochi_colza.Client.Effects.{start_request}
use mochi_colza.Client.Startable.{AreApart, settled_well}
use mochi_colza.Client.Refreshed.{one_round}
use mochi_colza.Client.Collective.{
  execute_request, cleanup_request, cleanup, execute, stage_data, chosen,
}
use mochi_colza.Client.Routing.{get_elem?-some}
use mochi_colza.Client.Accepting.{synchronous_ok, All-get_elem?, call_keeps, all_accepted}
use mochi_colza.Client.Rows.{Accepted-Serves, send_all_serves}
use mochi_colza.Client.Serving.{
  AllAt, IsWilling, start_served, stage_served, execute_served, cleanup_served,
}
use mochi_colza.Client.Program.{
  Options, my_data, Run, completes, then_on, after_start, stage_part, execute_part, iteration_part,
  run_iterations,
}

module _ {B J : Type 0} (backend : Backend B) (host : Host B J) (client : Client)
    (willing : IsWilling backend) (self : DistributedImpl) (apart : AreApart self.pipelines)
    (some_server : length self.pipelines ≢ 0) (i : ℕ) where
  -- The pipelines of the handle, all at its hash and in one phase.
  abbrev Are : Network B J → Phase → Type 0
  Are net f = AllAt net self.group_hash f self.pipelines

  start_moves :
      (refreshes : List (Refresh B J)) (net : Network B J) (k : ℕ)
      → (k ≡ 0) ⊎ (k < i)
      → Are net (idle k)
      → (after : Network B J) × (start_loop backend host client refreshes net self i
          ≡ ended after (sent_ok true ∷ []) self (returns_with_ok true))
        × Are after (running i)
  unfolding attempt
  start_moves refreshes net k le h =
      let request = start_request self.group_hash i in
      let ((rs, sent, well), now, _) =
        send_all_serves backend host self.group_hash (idle k) (running i) request (λ name. refl)
          (λ p name. start_served backend willing p name self.group_hash i k le) self.pipelines net
          apart h in
      let row = send_all backend host net request self.pipelines in
      let (a, is_a, good, done) = settled_well backend host row i rs sent well in
      let (_, _, _, same) = sent_ok_of backend host row i a is_a in
      let kept : (attempt backend host net self i).0 ≡ row.0 = same ∙ rw good refl in
      (
        (attempt backend host net self i).0,
        one_round backend host client refreshes net self i a is_a good done,
        subst (λ (n : Network B J). Are n (running i)) (sym kept) now,
      )

  module _ (expose : ℕ → ℕ → Bulk) (options : Options) (memory : ℕ)
      (refreshes : ℕ → List (Refresh B J)) where
    stage_moves :
        (net : Network B J)
        → Are net (running i)
        → (after : Network B J) × ((rest : Network B J → Run (Network B J))
            → stage_part backend host client expose options memory refreshes net self i rest
              ≡ rest after)
          × Are after (running i)
    unfolding stage_part stage_data PipelineHandle.stage_data then_on
    stage_moves net h = elim (Bool-cases options.no_stage) [
      | inl none_staged ↦ (net, λ rest. rw none_staged refl, h)
      | inr staged ↦
          let no_empty : (length self.pipelines == 0) ≡ false = ground arith in
          let (p, at) = get_elem?-some self.pipelines (chosen self (my_data i 0)) (omega arith) in
          let request =
            λ (name : String). Requests.stage name (exposed expose p (my_data i 0) memory) in
          let here = All-get_elem? _ self.pipelines _ p h at in
          let ((r, answer, success), now) =
            Accepted-Serves backend host self.group_hash (running i) (running i) request
              (λ q name.
                stage_served backend willing q name self.group_hash i
                  (exposed expose p (my_data i 0) memory) refl)
              net p here in
          let after = (call backend host net p.ph (request p.name)).0 in
          (
            after,
            λ rest.
                rw
                  (
                    staged,
                    no_empty,
                    at,
                    synchronous_ok (call backend host net p.ph (request p.name)) r answer success,
                  )
                  refl,
            call_keeps backend host net p request self.group_hash (running i) self.pipelines refl
                now h,
          )
    ]

    execute_moves :
        (net : Network B J)
        → Are net (running i)
        → (after : Network B J) × ((rest : Network B J → Run (Network B J))
            → execute_part backend host client expose options memory refreshes net self i rest
              ≡ rest after)
          × Are after (running i)
    unfolding execute_part execute execute_request then_on
    execute_moves net h = elim (Bool-cases options.no_exec) [
      | inl none_run ↦ (net, λ rest. rw none_run refl, h)
      | inr run ↦
          let request = λ (name : String). Requests.execute name i false in
          let ((rs, sent, well), now, _) =
            send_all_serves backend host self.group_hash (running i) (running i) request
              (λ name. refl) (λ p name. execute_served backend willing p name self.group_hash i)
              self.pipelines net apart h in
          let all = all_accepted backend host net self request rs some_server sent well in
          ((send_all backend host net request self.pipelines).0, λ rest. rw (run, all) refl, now)
    ]

    cleanup_moves :
        (net : Network B J)
        → Are net (running i)
        → (after : Network B J) × (cleanup backend host 0 net (some self) i ≡ (after, ok none))
          × Are after (idle i)
    unfolding cleanup cleanup_request
    cleanup_moves net h =
        let request = λ (name : String). Requests.cleanup name i in
        let ((rs, sent, well), now, _) =
          send_all_serves backend host self.group_hash (running i) (idle i) request (λ name. refl)
            (λ p name. cleanup_served backend willing p name self.group_hash i) self.pipelines net
            apart h in
        (
          (send_all backend host net request self.pipelines).0,
          all_accepted backend host net self request rs some_server sent well,
          now,
        )

    iteration_moves :
        (net : Network B J) (k : ℕ)
        → (k ≡ 0) ⊎ (k < i)
        → Are net (idle k)
        → (after : Network B J) × ((rest : Network B J → DistributedImpl → Run (Network B J))
            → iteration_part backend host client expose options memory refreshes net self i rest
              ≡ rest after self)
          × Are after (idle i)
    unfolding iteration_part after_start then_on
    iteration_moves net k le h =
        let (started, starts, begun) = start_moves (refreshes i) net k le h in
        let (staged, stages, held) = stage_moves started begun in
        let (executed, executes, ran) = execute_moves staged held in
        let (cleaned, cleans, over) = cleanup_moves executed ran in
        (cleaned, λ rest. rw (starts, stages, executes, cleans) refl, over)

module _ {B J : Type 0} (backend : Backend B) (host : Host B J) (client : Client)
    (expose : ℕ → ℕ → Bulk) (options : Options) (memory : ℕ)
    (refreshes : ℕ → List (Refresh B J)) where
  -- If the backends agree to everything, and the handle has pipelines, all of them distinct, at
  -- providers with the handle's hash, and all idle with the same iteration number, which is 0 or
  -- below the first iteration, then the loop of the example client comes to its end, without an
  -- exception, with the same handle, and leaves every pipeline idle with the number of the last
  -- iteration.
  pub run_iterations_completes :
      IsWilling backend
      → (self : DistributedImpl) (n i k : ℕ) (net : Network B J) → AreApart self.pipelines
      → length self.pipelines ≢ 0
      → (k ≡ 0) ⊎ (k < i)
      → AllAt net self.group_hash (idle k) self.pipelines
      → (after : Network B J) × (run_iterations backend host client expose options memory refreshes
            (suc n)
            net
            self
            i
          ≡ completes after self)
        × AllAt after self.group_hash (idle (i + n)) self.pipelines
  unfolding run_iterations
  run_iterations_completes willing self zero i k net apart some_server le h =
      let (after, goes_on, over) =
        iteration_moves backend host client willing self apart some_server i expose options memory
          refreshes net k le h in
      let last : i ≡ i + 0 = omega arith in
      (
        after,
        goes_on (λ net self.
            run_iterations backend host client expose options memory refreshes zero net self
              (i + 1)),
        subst (λ (m : ℕ). AllAt after self.group_hash (idle m) self.pipelines) last over,
      )
  run_iterations_completes willing self (suc n) i k net apart some_server le h =
      let (once, goes_on, over) =
        iteration_moves backend host client willing self apart some_server i expose options memory
          refreshes net k le h in
      let (after, completed, done) =
        run_iterations_completes willing self n (i + 1) i once apart some_server (inr (omega arith))
          over in
      let last : i + 1 + n ≡ i + suc n = omega arith in
      (
        after,
        goes_on (λ net self.
              run_iterations backend host client expose options memory refreshes (suc n) net self
                (i + 1))
            ∙ completed,
        subst (λ (m : ℕ). AllAt after self.group_hash (idle m) self.pipelines) last done,
      )

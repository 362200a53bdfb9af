-- ===== src/Client/AllOrNothing.antt =====
-- src/DistributedPipelineHandle.cpp: an attempt to start an iteration starts it everywhere, or
-- nowhere.
use mochi_colza.Base.{
  ℕ, ◌≡◌, inl, inr, refl, sym, ap, ◌∙◌, true, false, Option, some, [], arith, Bool-cases,
  if◌then◌else◌,
}
use mochi_colza.Result.{Outcome, ok, throw, throw_std}
use mochi_colza.Backend.{Backend}
use mochi_colza.Provider.Pipelines.{Host}
use mochi_colza.Provider.Phases.{Phase, running}
use mochi_colza.Client.Network.{Network}
use mochi_colza.Client.PipelineHandle.{PipelineHandleImpl}
use mochi_colza.Client.Connect.{DistributedImpl}
use mochi_colza.Client.Distributed.{Attempt, collect, send_all, abort_all, settle_attempt, attempt}
use mochi_colza.Client.Calling.{phase_at, running_at}
use mochi_colza.Client.Effects.{
  listed, Responses, started_in, all_succeed, collect_started, collect_ok, start_request,
  send_all-Effect, abort_all_effect, all_started,
}

module _ {B J : Type 0} (backend : Backend B) (host : Host B J) where
  pub sent_ok_of :
      (r : Network B J × Outcome Responses) (i : ℕ) (a : Attempt)
      → (settle_attempt backend host r i).1 ≡ ok a
      → (rs : Responses) × (r.1 ≡ ok rs)
        × (a ≡ collect (record { is_ok = true; retry = false; started = [] }) rs)
        × ((settle_attempt backend host r i).0
            ≡ (if a.is_ok then r.0 else abort_all backend host r.0 i a.started))
  unfolding settle_attempt
  sent_ok_of (net, ok rs) i a e =
      let is : collect (record { is_ok = true; retry = false; started = [] }) rs ≡ a =
        ground arith in
      (rs, refl, sym is, rw is refl)
  sent_ok_of (net, throw x) i a e = absurd (ground arith)
  sent_ok_of (net, throw_std what) i a e = absurd (ground arith)

  attempt_all_or_nothing :
      (net : Network B J) (self : DistributedImpl) (i : ℕ) (a : Attempt) (q : PipelineHandleImpl)
      → let after = attempt backend host net self i in
        after.1 ≡ ok a
        → (a.is_ok ≡ true → listed q self.pipelines ≡ true → phase_at after.0 q ≡ some (running i))
          × (a.is_ok ≡ false → running_at after.0 q ≡ running_at net q)
  unfolding attempt
  attempt_all_or_nothing net self i a q e =
      let sent = send_all backend host net (start_request self.group_hash i) self.pipelines in
      let (rs, responses, is, same) = sent_ok_of sent i a e in
      let (started, others) =
        send_all-Effect backend host self.group_hash i self.pipelines net rs q responses in
      let (untouched, stays, aborts) =
        abort_all_effect backend host self.group_hash i a.started sent.0 q in
      let all_ok = collect_ok rs (record { is_ok = true; retry = false; started = [] }) in
      let collected = collect_started q rs (record { is_ok = true; retry = false; started = [] }) in
      let held : listed q a.started ≡ started_in q rs =
        ap (λ (b : Attempt). listed q b.started) is ∙ collected in
      (
        λ good in_list.
            let all_well : all_succeed rs ≡ true = ground (arith, all_ok, is) in
            ap (λ (n : Network B J). phase_at n q) (same ∙ rw good refl)
            ∙ (started (
                all_started backend host (start_request self.group_hash i) self.pipelines net rs q
                  responses all_well in_list)).0,
        λ bad.
            ap (λ (n : Network B J). running_at n q) (same ∙ rw bad refl)
            ∙ elim (Bool-cases (started_in q rs)) [
              | inl new ↦ aborts (held ∙ new) (started new).0 ∙ sym (started new).1
              | inr old ↦
                  ap {A = Option Phase} (λ o. elim o [ some (running n) ↦ true | _ ↦ false ])
                    (untouched (held ∙ old) ∙ others old)
            ],
      )

  -- If all requests of an attempt were sent and it reports success, every pipeline of the handle runs
  -- the iteration.
  pub attempt_starts_all :
      (net : Network B J) (self : DistributedImpl) (i : ℕ) (a : Attempt) (q : PipelineHandleImpl)
      → (attempt backend host net self i).1 ≡ ok a
      → a.is_ok ≡ true
      → listed q self.pipelines ≡ true
      → phase_at (attempt backend host net self i).0 q ≡ some (running i)
  attempt_starts_all net self i a q e good in_list =
      (attempt_all_or_nothing net self i a q e).0 good in_list

  -- If all requests of an attempt were sent and it reports a failure, a pipeline of the system, of this
  -- handle or not, runs an iteration after the attempt exactly if it ran one before: what the attempt
  -- started is aborted.
  pub attempt_starts_none :
      (net : Network B J) (self : DistributedImpl) (i : ℕ) (a : Attempt) (q : PipelineHandleImpl)
      → (attempt backend host net self i).1 ≡ ok a
      → a.is_ok ≡ false
      → running_at (attempt backend host net self i).0 q ≡ running_at net q
  attempt_starts_none net self i a q e bad = (attempt_all_or_nothing net self i a q e).1 bad

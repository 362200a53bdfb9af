-- ===== src/Client/Stopping.antt =====
-- src/Client.cpp: the steps of makeDistributedPipelineHandle on rank 0, where one raises.
use mochi_colza.Base.{
  ℕ, ◌+◌, ◌≡◌, refl, String, ◌<>◌, Bool, true, false, ◌&&◌, Option, none, some, List, [], ◌∷◌,
  arith, ◌⊎◌, inl, inr, Option-cases, ap, ◌∙◌, subst, sym,
}
use mochi_colza.Result.{Outcome, ok, throw, throw_std, exception, ssg_error}
use mochi_colza.Backend.{Backend}
use mochi_colza.Provider.Pipelines.{Host}
use mochi_colza.Client.Addresses.{copy_address}
use mochi_colza.Client.Network.{Network}
use mochi_colza.Client.PipelineHandle.{PipelineHandleImpl}
use mochi_colza.Client.Connect.{
  Client, Member, View, Broadcast, sent_failure, load_member, load_members, loaded_one, and_then,
  make_pipeline_handle,
}

abbrev pub has_raised : {A : Type 0} → Option (Outcome A) → Bool
has_raised none = false
has_raised (some (ok a)) = false
has_raised (some (throw e)) = true
has_raised (some (throw_std what)) = true

-- SSG tells the id and the address of the member, and of all members.
abbrev pub is_described : Member → Bool
is_described m = elim m.id_status [
  | some ret ↦ false
  | none ↦ elim m.addr_status [ some ret ↦ false | none ↦ true ]
]

abbrev pub all_described : List Member → Bool
all_described [] = true
all_described (m ∷ members) = is_described m && all_described members

-- SSG loads the file, observes the group and tells its size.
abbrev pub has_group : View → Bool
has_group view = view.loads && (view.observes && view.has_size)

-- A step has stopped with an error of SSG, which did not tell all that it was asked, and nothing
-- was sent; or -1 was sent.
abbrev pub Stops : {N A : Type 0} → Bool → N × List Broadcast × Option (Outcome A) → Type 0
Stops known r =
    ((known ≡ false)
      × (r.1 ≡ [])
      × ((text : String) × (r.2 ≡ some (throw (exception ssg_error text)))))
    ⊎ (r.1 ≡ sent_failure ∷ [])

Stops-and :
    {N A : Type 0} (known others : Bool) (r : N × List Broadcast × Option (Outcome A))
    → Stops others r
    → Stops (known && others) r
Stops-and known others r (inl (unknown, silent, raised)) = inl (ground arith, silent, raised)
Stops-and known others r (inr told) = inr told

-- A step raises, or the steps after it do.
pub and_then_raised :
    {N A C : Type 0} (known : Bool) (r : N × List Broadcast × Option (Outcome A))
    (rest : N → A → N × List Broadcast × Option (Outcome C))
    → has_raised (and_then r rest).2 ≡ true
    → (has_raised r.2 ≡ true → Stops known r)
    → Stops known (and_then r rest)
      ⊎ ((a : A) × (and_then r rest ≡ rest r.0 a) × (has_raised (rest r.0 a).2 ≡ true))
unfolding and_then
and_then_raised known (net, sent, some (ok a)) rest e h = inr (a, refl, e)
and_then_raised known (net, sent, some (throw x)) rest e h = elim (h refl) [
  | inl (unknown, silent, (text, is)) ↦ inl (inl (unknown, silent, (text, ground arith)))
  | inr told ↦ inl (inr told)
]
and_then_raised known (net, sent, some (throw_std what)) rest e h = elim (h refl) [
  | inl (unknown, silent, (text, is)) ↦ absurd (ground arith)
  | inr told ↦ inl (inr told)
]
and_then_raised known (net, sent, none) rest e h = absurd (ground arith)

module _ {B J : Type 0} (backend : Backend B) (host : Host B J) (client : Client) (provider_id : ℕ)
    (name : String) (check : Bool) where
  loaded_one_raised :
      (written : List ℕ) (pipelines : List PipelineHandleImpl)
      (r : Network B J × Outcome PipelineHandleImpl)
      → has_raised (loaded_one backend host client written pipelines r).2 ≡ true
      → (loaded_one backend host client written pipelines r).1 ≡ sent_failure ∷ []
  unfolding loaded_one
  loaded_one_raised written pipelines (net, ok p) e = absurd (ground arith)
  loaded_one_raised written pipelines (net, throw x) e = refl
  loaded_one_raised written pipelines (net, throw_std what) e = refl

  -- A member that SSG describes and whose address fits in the buffer.
  load_member_writes :
      (net : Network B J) (i : ℕ) (m : Member) (buffer written : List ℕ)
      (pipelines : List PipelineHandleImpl)
      → m.id_status ≡ none
      → m.addr_status ≡ none
      → copy_address i m.address buffer ≡ some written
      → load_member backend host client net i m provider_id name check (buffer, pipelines)
        ≡ loaded_one backend host client written pipelines
            (make_pipeline_handle backend host client net m.address provider_id name check)
  unfolding load_member
  load_member_writes net i m buffer written pipelines id_told address_told copied =
      rw (id_told, address_told, copied) refl

  load_member_raised :
      (net : Network B J) (i : ℕ) (m : Member) (buffer : List ℕ)
      (pipelines : List PipelineHandleImpl)
      → let r =
          load_member backend host client net i m provider_id name check (buffer, pipelines) in
        has_raised r.2 ≡ true → Stops (is_described m) r
  unfolding load_member
  load_member_raised net i m buffer pipelines e = elim (Option-cases m.id_status) [
    | inr (ret, no_id) ↦ inl (
      ground arith,
      ground arith,
      (
        "Could not get member if from rank (ssg_get_group_member_id_from_rank returned "
            <> (client.decimal ret <> ")"),
        rw no_id refl,
      ),
    )
    | inl id_told ↦ elim (Option-cases m.addr_status) [
      | inr (ret, no_address) ↦ inl (
        ground arith,
        ground arith,
        (
          "Could not get member address (ssg_get_group_member_addr returned "
              <> (client.decimal ret <> ")"),
          rw (id_told, no_address) refl,
        ),
      )
      | inl address_told ↦ elim (Option-cases (copy_address i m.address buffer)) [
        | inl overrun ↦ absurd (ground arith)
        | inr (written, copied) ↦
            let made =
              load_member_writes net i m buffer written pipelines id_told address_told copied in
            inr (
              ap
                (λ (r : Network B J
                    × List Broadcast
                    × Option (Outcome (List ℕ × List PipelineHandleImpl))).
                  r.1)
                made
              ∙ loaded_one_raised written pipelines
                  (make_pipeline_handle backend host client net m.address provider_id name check)
                  (subst
                    (λ (r : Network B J
                        × List Broadcast
                        × Option (Outcome (List ℕ × List PipelineHandleImpl))).
                      has_raised r.2 ≡ true)
                    made e))
      ]
    ]
  ]

  pub load_members_raised :
      (net : Network B J) (i : ℕ) (members : List Member) (state : List ℕ × List PipelineHandleImpl)
      → let r = load_members backend host client net i members provider_id name check state in
        has_raised r.2 ≡ true → Stops (all_described members) r
  unfolding load_members
  load_members_raised net i [] state e = absurd (ground arith)
  load_members_raised net i (m ∷ members) state e =
      elim (and_then_raised (is_described m)
        (load_member backend host client net i m provider_id name check state) _ e
        (load_member_raised net i m state.0 state.1)) [
          | inl (inl (unknown, silent, raised)) ↦ inl (ground arith, silent, raised)
          | inl (inr told) ↦ inr told
          | inr (next, is, later) ↦
              subst
                (λ (r : Network B J
                    × List Broadcast
                    × Option (Outcome (List ℕ × List PipelineHandleImpl))).
                  Stops (is_described m && all_described members) r)
                (sym is)
                (Stops-and (is_described m) (all_described members)
                  (load_members backend host client
                    (load_member backend host client net i m provider_id name check state).0 (i + 1)
                    members provider_id name check next)
                  (load_members_raised
                    (load_member backend host client net i m provider_id name check state).0 (i + 1)
                    members next later))
        ]

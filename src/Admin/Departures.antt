-- ===== src/Admin/Departures.antt =====
-- src/Admin.cpp: what has become of the servers that makeServersLeave names, once the requests that
-- it has sent have arrived.
use mochi_colza.Base.{
  ℕ, zero, suc, ◌≡◌, refl, String, Bool, true, false, ◌&&◌, ◌||◌, none, some, List, [], ◌∷◌, ◌++◌,
  arith, Option-cases, Bool-cases, inl, inr, ◌==◌, nat_eq, ℤ, get_elem?, length, All,
}
use mochi_colza.Base.Map.{lookup, lookup-insert}
use mochi_colza.Result.{ok}
use mochi_colza.Provider.State.{Provider}
use mochi_colza.Client.Network.{ProviderHandle, Network, handle_eq}
use mochi_colza.Client.Connect.{Member, View}
use mochi_colza.Admin.Operations.{
  Engine, server_of, send_leave, then_sends, member_of_rank, leave_loop, make_servers_leave, arrive,
  deliver,
}

-- The provider has left the group, finalized its engine and dropped its pipelines.
abbrev pub has_left : {B J : Type 0} → Network B J → ProviderHandle → Bool
has_left net ph = elim (lookup ph net) [
  | none ↦ false
  | some p ↦ p.left && (p.finalized && (length p.pipelines == 0))
]

-- The provider is there and counts no active pipeline.
abbrev pub counts_none : {B J : Type 0} → Network B J → ProviderHandle → Bool
counts_none net ph = elim (lookup ph net) [ none ↦ false | some p ↦ p.num_active_pipelines == 0 ]

abbrev pub has_request : ProviderHandle → List ProviderHandle → Bool
has_request ph [] = false
has_request ph (other ∷ rest) = other == ph || has_request ph rest

has_request-append :
    (ph : ProviderHandle) (xs ys : List ProviderHandle)
    → has_request ph (xs ++ ys) ≡ (has_request ph xs || has_request ph ys)
has_request-append ph [] ys = refl
has_request-append ph (x ∷ xs) ys = ground (arith, has_request-append ph xs ys)

has_request-All :
    (ph : ProviderHandle) (sent order : List ProviderHandle)
    → All (λ q. has_request q order ≡ true) sent
    → has_request ph sent ≡ true
    → has_request ph order ≡ true
has_request-All ph [] order h e = absurd (ground arith)
has_request-All ph (q ∷ sent) order h e =
    ground (arith, handle_eq.same_iff q ph, has_request-All ph sent order h.1)

module _ {B J : Type 0} where
  arrive_leaves :
      (ph : ProviderHandle) (net : Network B J)
      → counts_none net ph ≡ true
      → has_left (arrive ph net) ph ≡ true
  unfolding arrive
  arrive_leaves ph net h =
      grind (arith, handle_eq.same_iff ph ph, lookup-insert {K = ProviderHandle} {V = Provider B J})

  arrive_keeps_left :
      (ph other : ProviderHandle) (net : Network B J)
      → has_left net other ≡ true
      → has_left (arrive ph net) other ≡ true
  unfolding arrive
  arrive_keeps_left ph other net h =
      grind
        (arith, handle_eq.same_iff ph other, lookup-insert {K = ProviderHandle} {V = Provider B J})

  arrive_keeps_count :
      (ph other : ProviderHandle) (net : Network B J)
      → counts_none net other ≡ true
      → counts_none (arrive ph net) other ≡ true
  unfolding arrive
  arrive_keeps_count ph other net h =
      grind
        (arith, handle_eq.same_iff ph other, lookup-insert {K = ProviderHandle} {V = Provider B J})

  deliver_keeps_left :
      (order : List ProviderHandle) (net : Network B J) (ph : ProviderHandle)
      → has_left net ph ≡ true
      → has_left (deliver order net) ph ≡ true
  unfolding deliver
  deliver_keeps_left [] net ph h = h
  deliver_keeps_left (q ∷ order) net ph h =
      deliver_keeps_left order (arrive q net) ph (arrive_keeps_left q ph net h)

  -- A request that arrives among others makes its provider leave.
  deliver_leaves :
      (order : List ProviderHandle) (net : Network B J) (ph : ProviderHandle)
      → counts_none net ph ≡ true
      → has_request ph order ≡ true
      → has_left (deliver order net) ph ≡ true
  unfolding deliver
  deliver_leaves [] net ph h e = absurd (ground arith)
  deliver_leaves (q ∷ order) net ph h e = elim (Bool-cases (q == ph)) [
    | inl same ↦
        let is : q ≡ ph = (handle_eq.same_iff q ph).0 same in
        deliver_keeps_left order (arrive q net) ph (rw is (arrive_leaves ph net h))
    | inr other ↦
        deliver_leaves order (arrive q net) ph (arrive_keeps_count q ph net h) (ground arith)
  ]

module _ (engine : Engine) (provider_id : ℕ) (members : List Member) where
  -- One round of the loop, and the rounds after it, all without an exception.
  loop_step :
      (rank : ℤ) (ranks : List ℤ) (m : Member)
      → (leave_loop engine provider_id members (rank ∷ ranks)).1 ≡ ok tt
      → let sent = (leave_loop engine provider_id members (rank ∷ ranks)).0 in
        ((leave_loop engine provider_id members ranks).1 ≡ ok tt)
        × (has_request
                (server_of engine provider_id m)
                (leave_loop engine provider_id members ranks).0
              ≡ true
            → has_request (server_of engine provider_id m) sent ≡ true)
        × (member_of_rank members rank ≡ some m
            → has_request (server_of engine provider_id m) sent ≡ true)
  unfolding leave_loop send_leave then_sends
  loop_step rank ranks m e = elim (Option-cases (member_of_rank members rank)) [
    | inl skipped ↦ (ground arith, λ h. ground arith, λ is. absurd (ground arith))
    | inr (n, there) ↦
        elim (Bool-cases (engine.can_send (server_of engine provider_id n).address)) [
          | inl sent ↦ (
            ground arith,
            λ h. ground arith,
            λ is.
                let same : n ≡ m = ground arith in
                ground (
                  arith,
                  same,
                  handle_eq.same_iff (server_of engine provider_id m)
                      (server_of engine provider_id m),
                ),
          )
          | inr not_sent ↦ absurd (ground arith)
        ]
  ]

  loop_sends :
      (ranks : List ℤ) (k : ℕ) (rank : ℤ) (m : Member)
      → (leave_loop engine provider_id members ranks).1 ≡ ok tt
      → get_elem? ranks k ≡ some rank
      → member_of_rank members rank ≡ some m
      → has_request (server_of engine provider_id m) (leave_loop engine provider_id members ranks).0
        ≡ true
  loop_sends [] k rank m e at_k is = absurd (ground arith)
  loop_sends (r ∷ ranks) zero rank m e at_k is =
      let (_, _, done) = loop_step r ranks m e in done (ground arith)
  loop_sends (r ∷ ranks) (suc k) rank m e at_k is =
      let (rest, more, _) = loop_step r ranks m e in
      more (loop_sends ranks k rank m rest (ground arith) is)

make_servers_leave_sends :
    (engine : Engine) (view : View) (ssg_file : String) (ranks : List ℤ) (provider_id k : ℕ)
    (rank : ℤ) (m : Member)
    → (make_servers_leave engine view ssg_file ranks provider_id).1 ≡ ok tt
    → view.has_size ≡ true
    → get_elem? ranks k ≡ some rank
    → member_of_rank view.members rank ≡ some m
    → has_request
        (server_of engine provider_id m)
        (make_servers_leave engine view ssg_file ranks provider_id).0
      ≡ true
unfolding make_servers_leave
make_servers_leave_sends engine view ssg_file ranks provider_id k rank m e sized at_k is =
    ground (arith, loop_sends engine provider_id view.members ranks k rank m)

-- If makeServersLeave comes back, without an exception and with the size of the group known, the
-- server of every rank of its list that is a rank of the group, its provider counting no active
-- pipeline, has left the group, finalized its engine and dropped its pipelines once the requests that
-- were sent have arrived, in whatever order and among whatever other requests to leave.
pub make_servers_leave_left :
    {B J : Type 0} (engine : Engine) (net : Network B J) (view : View) (ssg_file : String)
    (ranks : List ℤ) (provider_id k : ℕ) (rank : ℤ) (m : Member) (order : List ProviderHandle)
    → (make_servers_leave engine view ssg_file ranks provider_id).1 ≡ ok tt
    → view.has_size ≡ true
    → get_elem? ranks k ≡ some rank
    → member_of_rank view.members rank ≡ some m
    → counts_none net (server_of engine provider_id m) ≡ true
    → All
        (λ ph. has_request ph order ≡ true)
        (make_servers_leave engine view ssg_file ranks provider_id).0
    → has_left (deliver order net) (server_of engine provider_id m) ≡ true
make_servers_leave_left engine net view ssg_file ranks provider_id k rank m order e sized at_k is
      none_active arrived =
    deliver_leaves order net (server_of engine provider_id m) none_active (
      has_request-All (server_of engine provider_id m)
        (make_servers_leave engine view ssg_file ranks provider_id).0 order arrived
        (make_servers_leave_sends engine view ssg_file ranks provider_id k rank m e sized at_k is))

-- ===== src/Admin/Operations.antt =====
-- src/Admin.cpp: pipelines on one provider and on all providers of a group, and servers that leave.
-- The threads of an operation on a group run here one after another, in the order of the ranks.
use mochi_colza.Base.{
  ℕ, String, ◌<>◌, Bool, Option, none, some, List, [], ◌∷◌, ◌++◌, ℤ, pos, negsuc, get_elem?,
  if◌then◌else◌,
}
use mochi_colza.Base.Map.{lookup, insert}
use mochi_colza.Result.{Outcome, ok, throw, throw_std, exception, ssg_error}
use mochi_colza.Backend.{Backend}
use mochi_colza.Provider.Pipelines.{Host}
use mochi_colza.Provider.Iterations.{leave}
use mochi_colza.Provider.Requests
use mochi_colza.Provider.Requests.{Request}
use mochi_colza.Client.Addresses.{Address}
use mochi_colza.Client.Network.{ProviderHandle, Reply, answered, failed, Network, call, handle_eq}
use mochi_colza.Client.Connect.{Member, View}

-- The engine of the administrator: the addresses that `lookup` finds, those to which a request can
-- be sent, and the text of an endpoint that has no address.
pub record Engine : Type 0 where
  pub lookup_finds : Address → Bool
  pub can_send : Address → Bool
  pub null_text : Address

-- The arguments of a creation.
pub record Creating : Type 0 where
  pub name : String
  pub type : String
  pub config : String
  pub library : String
  pub token : String

-- `if(not result.success()) throw`
unfoldable pub expect_success : {N : Type 0} → N × Reply → N × Outcome Unit
expect_success (net, answered result) =
    if result.success
    then (net, ok tt)
    else (net, throw (record { code = result.value; what = result.error }))
expect_success (net, failed what) = (net, throw_std what)

-- The text that a thread makes of the member of its rank: a failure of SSG leaves the address null.
abbrev pub text_of : Engine → Member → Address
text_of engine member = elim member.id_status [
  | some ret ↦ engine.null_text
  | none ↦ elim member.addr_status [ some ret ↦ engine.null_text | none ↦ member.address ]
]

-- The provider of a member.
abbrev pub server_of : Engine → ℕ → Member → ProviderHandle
server_of engine provider_id member = record {
  address = text_of engine member;
  provider_id = provider_id;
}

-- How an operation on a group ends. An exception that leaves a thread ends the process.
pub data Ended : Type 0 where
  finished : Ended
  refused : Outcome Unit → Ended
  terminated : Ended

-- A thread, and the threads after it.
unfoldable pub joined : {N : Type 0} → N × Outcome Unit → (N → N × Ended) → N × Ended
joined (net, ok _) others = others net
joined (net, throw e) others = (net, terminated)
joined (net, throw_std what) others = (net, terminated)

unfoldable pub run_threads : {N A : Type 0} → (N → A → N × Outcome Unit) → N → List A → N × Ended
unfolding joined
run_threads thread net [] = (net, finished)
run_threads thread net (a ∷ rest) = joined (thread net a) λ net. run_threads thread net rest

-- The two calls of SSG with which each operation on a group begins.
abbrev pub with_group : {N : Type 0} → N → View → String → N × Ended → N × Ended
with_group net view ssg_file rest =
    if view.loads
    then if view.observes then rest else (
      net,
      refused (throw (exception ssg_error ("Could not observe SSG group from " <> ssg_file))),
    )
    else (net, refused (throw (exception ssg_error ("Could not open SSG file " <> ssg_file))))

module _ {B J : Type 0} (backend : Backend B) (host : Host B J) (engine : Engine) where
  abbrev pub send : Network B J → Address → ℕ → Request → Network B J × Outcome Unit
  send net address provider_id request =
      if engine.lookup_finds address
      then expect_success
          (call backend host net (record { address = address; provider_id = provider_id }) request)
      else (net, throw_std "address not found")

  -- Admin::createPipeline
  unfoldable pub create_pipeline : Network B J → Address → ℕ → Creating → Network B J × Outcome Unit
  unfolding expect_success call
  create_pipeline net address provider_id c =
      send net address provider_id (Requests.create c.token c.name c.type c.config c.library)

  -- Admin::destroyPipeline
  unfoldable pub destroy_pipeline :
      Network B J → Address → ℕ → String → String → Network B J × Outcome Unit
  unfolding expect_success call
  destroy_pipeline net address provider_id name token =
      send net address provider_id (Requests.destroy token name)

  -- Admin::createDistributedPipeline
  unfoldable pub create_distributed_pipeline :
      Network B J → View → String → ℕ → Creating → Network B J × Ended
  unfolding run_threads create_pipeline
  create_distributed_pipeline net view ssg_file provider_id c = with_group net view ssg_file (
      if view.has_size
      then run_threads
          (λ net (member : Member). create_pipeline net (text_of engine member) provider_id c) net
          view.members
      else (net, refused (throw (exception ssg_error "Could not get SSG group size"))))

  -- Admin::destroyDistributedPipeline. The size is 0 where SSG does not give it.
  unfoldable pub destroy_distributed_pipeline :
      Network B J → View → String → ℕ → String → String → Network B J × Ended
  unfolding run_threads destroy_pipeline
  destroy_distributed_pipeline net view ssg_file provider_id name token =
      with_group net view ssg_file (
        run_threads
          (λ net (member : Member).
            destroy_pipeline net (text_of engine member) provider_id name token)
          net (if view.has_size then view.members else []))

-- m_leave.on(ph)(): the RPC has no response, so that the call comes back when the request is sent.
-- The list has the requests that were sent.
unfoldable pub send_leave : Engine → ProviderHandle → List ProviderHandle × Outcome Unit
send_leave engine ph =
    if engine.can_send ph.address then (ph ∷ [], ok tt) else ([], throw_std "request not sent")

-- Admin::makeServerLeave
unfoldable pub make_server_leave : Engine → Address → ℕ → List ProviderHandle × Outcome Unit
unfolding send_leave
make_server_leave engine address provider_id =
    if engine.lookup_finds address
    then send_leave engine (record { address = address; provider_id = provider_id })
    else ([], throw_std "address not found")

-- The member of a rank, an `int`: `none` is a rank that is skipped.
abbrev pub member_of_rank : List Member → ℤ → Option Member
member_of_rank members (pos rank) = get_elem? members rank
member_of_rank members (negsuc n) = none

-- A call and the calls after it.
unfoldable pub then_sends :
    List ProviderHandle × Outcome Unit
    → List ProviderHandle × Outcome Unit
    → List ProviderHandle × Outcome Unit
then_sends (sent, ok _) (later, outcome) = (sent ++ later, outcome)
then_sends (sent, throw e) rest = (sent, throw e)
then_sends (sent, throw_std what) rest = (sent, throw_std what)

-- The loop of Admin::makeServersLeave, and the whole of it.
unfoldable pub leave_loop : Engine → ℕ → List Member → List ℤ → List ProviderHandle × Outcome Unit
unfolding send_leave then_sends
leave_loop engine provider_id members [] = ([], ok tt)
leave_loop engine provider_id members (rank ∷ ranks) =
    let rest = leave_loop engine provider_id members ranks in
    elim (member_of_rank members rank) [
      | none ↦ rest
      | some member ↦ then_sends (send_leave engine (server_of engine provider_id member)) rest
    ]

unfoldable pub make_servers_leave :
    Engine → View → String → List ℤ → ℕ → List ProviderHandle × Outcome Unit
unfolding leave_loop
make_servers_leave engine view ssg_file ranks provider_id =
    if view.loads
    then if view.observes
      then leave_loop engine provider_id (if view.has_size then view.members else []) ranks
      else ([], throw (exception ssg_error ("Could not observe SSG group from " <> ssg_file)))
    else ([], throw (exception ssg_error ("Could not open SSG file " <> ssg_file)))

module _ {B J : Type 0} where
  -- A request to leave reaches its provider, whose handler runs, or waits and changes nothing.
  unfoldable pub arrive : ProviderHandle → Network B J → Network B J
  unfolding leave
  arrive ph net = elim (lookup ph net) [
    | none ↦ net
    | some p ↦ elim (leave p) [ none ↦ net | some q ↦ insert ph q net ]
  ]

  -- Requests to leave reach their providers, in this order.
  unfoldable pub deliver : List ProviderHandle → Network B J → Network B J
  unfolding arrive
  deliver [] net = net
  deliver (ph ∷ order) net = deliver order (arrive ph net)

-- ===== src/Client/Start.antt =====
-- src/DistributedPipelineHandle.cpp: `start`, on rank 0 and on the other ranks of the clients.
use mochi_colza.Base.{ℕ, Bool, true, false, Option, none, some, List, [], ◌∷◌, ◌++◌}
use mochi_colza.Result.{Outcome, ok, throw, throw_std, exception, ssg_error}
use mochi_colza.Backend.{Backend}
use mochi_colza.Provider.Pipelines.{Host}
use mochi_colza.Client.Addresses.{unpack}
use mochi_colza.Client.Network.{Network}
use mochi_colza.Client.Connect.{
  Client, View, Broadcast, sent_ok, sent_size, sent_failure, sent_addresses, DistributedImpl,
  new_impl, connect,
}
use mochi_colza.Client.Following.{Followed, followed, raises, blocked, make_unchecked}
use mochi_colza.Client.PipelineHandle.{PipelineHandleImpl}
use mochi_colza.Client.Distributed.{Attempt, attempt}

-- What lies between two attempts: what the rest of the system does to the providers, and what SSG
-- then answers about the group.
pub record Refresh (B J : Type 0) : Type 0 where
  pub environment : Network B J → Network B J
  pub view : View

-- How `start`, which is void, ends on rank 0: it returns, its local variable `ok` having the value
-- given, which the caller does not see; it throws; a copy of an address runs out of the buffer; or it
-- still retries when the refreshes of the model are used up.
pub data Ending : Type 0 where
  returns_with_ok : Bool → Ending
  throws : Outcome Unit → Ending
  overruns : Ending
  retries : Ending

pub record Started (B J : Type 0) : Type 0 where
  pub network : Network B J
  pub sent : List Broadcast
  pub self : DistributedImpl
  pub ending : Ending

module _ {B J : Type 0} where
  abbrev pub ended : Network B J → List Broadcast → DistributedImpl → Ending → Started B J
  ended net sent self ending = record { network = net; sent = sent; self = self; ending = ending }

  -- Broadcasts before all others.
  abbrev pub after_sending : List Broadcast → Started B J → Started B J
  after_sending sent s = record s { sent = sent ++ s.sent }

  -- The end of a round: the broadcast of `ok`, and the next round if one is to come.
  unfoldable pub round :
      DistributedImpl → Network B J × Outcome Attempt → (Network B J → Started B J) → Started B J
  round self (net, ok a) again = elim a.retry [
    | true ↦ after_sending (sent_ok a.is_ok ∷ []) (again net)
    | false ↦ ended net (sent_ok a.is_ok ∷ []) self (returns_with_ok a.is_ok)
  ]
  round self (net, throw e) again = ended net [] self (throws (throw e))
  round self (net, throw_std what) again = ended net [] self (throws (throw_std what))

  -- A round begins with a new handle, unless it is the first.
  unfoldable pub reconnected :
      DistributedImpl
      → Network B J × List Broadcast × Option (Outcome DistributedImpl)
      → (Network B J → DistributedImpl → Started B J)
      → Started B J
  reconnected self (net, sent, some (ok impl)) rest = after_sending sent (rest net impl)
  reconnected self (net, sent, some (throw e)) rest = ended net sent self (throws (throw e))
  reconnected self (net, sent, some (throw_std what)) rest =
      ended net sent self (throws (throw_std what))
  reconnected self (net, sent, none) rest = ended net sent self overruns

module _ {B J : Type 0} (backend : Backend B) (host : Host B J) (client : Client) where
  -- DistributedPipelineHandle::start on rank 0. Each refresh is good for one more round.
  unfoldable pub start_loop : List (Refresh B J) → Network B J → DistributedImpl → ℕ → Started B J
  unfolding round reconnected attempt connect
  start_loop [] net self iteration =
      round self (attempt backend host net self iteration) λ net. ended net [] self retries
  start_loop (refresh ∷ more) net self iteration =
      round self (attempt backend host net self iteration) λ net.
        reconnected self
          (connect backend host client (refresh.environment net) refresh.view self.ssg_group_file
            self.provider_id self.name false)
          λ net impl. start_loop more net impl iteration

-- How the other ranks go on with the pipelines that they could make.
unfoldable pub with_made :
    Outcome (List PipelineHandleImpl) → (List PipelineHandleImpl → Followed) → Followed
with_made (ok pipelines) rest = rest pipelines
with_made (throw e) rest = raises (throw e)
with_made (throw_std what) rest = raises (throw_std what)

-- The other ranks: they read the flag, and make a new handle while it is false.
unfoldable pub follow_start : Client → DistributedImpl → List Broadcast → Followed
unfolding make_unchecked unpack new_impl with_made
follow_start client self (sent_ok true ∷ rest) = followed self rest
follow_start client self (sent_ok false ∷ sent_failure ∷ rest) =
    raises (throw (exception ssg_error "Master client could not resolve pipeline"))
follow_start client self (sent_ok false ∷ sent_size n ∷ sent_addresses packed ∷ rest) =
    with_made (make_unchecked client self.provider_id self.name (unpack 0 n packed)) λ pipelines.
      follow_start client (new_impl self.name none self.ssg_group_file self.provider_id pipelines)
        rest
follow_start client self _ = blocked

-- ===== src/Client/Following.antt =====
-- src/Client.cpp: makeDistributedPipelineHandle on the ranks other than 0.
use mochi_colza.Base.{ℕ, String, none, List, [], ◌∷◌, if◌then◌else◌}
use mochi_colza.Result.{Outcome, ok, throw, throw_std, exception, ssg_error, ◌>>=◌}
use mochi_colza.Client.Addresses.{Address, unpack}
use mochi_colza.Client.PipelineHandle.{PipelineHandleImpl}
use mochi_colza.Client.Connect.{
  Client, DistributedImpl, new_impl, pipeline_at, Broadcast, sent_size, sent_failure,
  sent_addresses,
}

-- What the other ranks make of the broadcasts: an object and the broadcasts that they have not read,
-- an exception, or a wait for a broadcast that does not come.
pub data Followed : Type 0 where
  followed : DistributedImpl → List Broadcast → Followed
  raises : Outcome Unit → Followed
  blocked : Followed

-- Their loop over the addresses.
unfoldable pub make_unchecked :
    Client → ℕ → String → List Address → Outcome (List PipelineHandleImpl)
make_unchecked client provider_id name [] = ok []
make_unchecked client provider_id name (address ∷ addresses) =
    let rest = make_unchecked client provider_id name addresses in
    if client.lookup_finds address
    then (rest >>= λ pipelines. ok (pipeline_at client provider_id name address ∷ pipelines))
    else throw_std "address not found"

unfoldable pub finish_following :
    String → ℕ → String → List Broadcast → Outcome (List PipelineHandleImpl) → Followed
unfolding new_impl
finish_following ssg_group_file provider_id name rest (ok pipelines) =
    followed (new_impl name none ssg_group_file provider_id pipelines) rest
finish_following ssg_group_file provider_id name rest (throw e) = raises (throw e)
finish_following ssg_group_file provider_id name rest (throw_std what) = raises (throw_std what)

-- Client::makeDistributedPipelineHandle on the other ranks
unfoldable pub follow : Client → String → ℕ → String → List Broadcast → Followed
unfolding make_unchecked finish_following unpack
follow client ssg_group_file provider_id name (sent_failure ∷ rest) =
    raises (throw (exception ssg_error "Master client could not resolve pipeline"))
follow client ssg_group_file provider_id name (sent_size n ∷ sent_addresses packed ∷ rest) =
    finish_following ssg_group_file provider_id name rest
      (make_unchecked client provider_id name (unpack 0 n packed))
follow client ssg_group_file provider_id name _ = blocked

-- ===== src/Client/Network.antt =====
-- The providers that a client reaches, each by its provider handle. A call runs the handler of the
-- provider at once: src/ProviderImpl.hpp serves requests, thallium carries them.
use mochi_colza.Base.{
  ℕ, ◌≡◌, ◌↔◌, Bool, true, false, ◌&&◌, none, some, [], ◌∷◌, arith, String, ℤ, Comparable, ◌==◌,
  nat_eq, string_eq,
}
use mochi_colza.Client.Addresses.{Address}
use mochi_colza.Base.Map.{Map, lookup, insert}
use mochi_colza.Result.{RequestResult}
use mochi_colza.Backend.{Backend}
use mochi_colza.Provider.State.{Provider}
use mochi_colza.Provider.Pipelines.{Host}
use mochi_colza.Provider.Requests.{Request, serve}

abbrev pub same_address : Address → Address → Bool
same_address [] [] = true
same_address [] (c ∷ cs) = false
same_address (b ∷ bs) [] = false
same_address (b ∷ bs) (c ∷ cs) = (b == c) && same_address bs cs

pub same_address_iff : (a b : Address) → (same_address a b ≡ true) ↔ (a ≡ b)
same_address_iff [] [] = ground arith
same_address_iff [] (c ∷ cs) = ground arith
same_address_iff (b ∷ bs) [] = ground arith
same_address_iff (b ∷ bs) (c ∷ cs) = ground (arith, same_address_iff bs cs)

-- tl::provider_handle
pub record ProviderHandle : Type 0 where
  pub address : Address
  pub provider_id : ℕ

abbrev pub same_handle : ProviderHandle → ProviderHandle → Bool
same_handle a b = same_address a.address b.address && (a.provider_id == b.provider_id)

pub same_handle_iff : (a b : ProviderHandle) → (same_handle a b ≡ true) ↔ (a ≡ b)
same_handle_iff a b = ground (arith, same_address_iff a.address b.address)

instance abbrev pub handle_eq : Comparable ProviderHandle
handle_eq = record { same = same_handle; same_iff = same_handle_iff }

-- What a call gives: the response of the handler, or an exception of thallium.
pub data Reply : Type 0 where
  answered : RequestResult ℤ → Reply
  failed : String → Reply

abbrev pub Network : Type 0 → Type 0 → Type 0
Network B J = Map ProviderHandle (Provider B J)

module _ {B J : Type 0} (backend : Backend B) (host : Host B J) where
  -- rpc.on(ph)(...)
  unfoldable pub call : Network B J → ProviderHandle → Request → Network B J × Reply
  unfolding serve
  call net ph request = elim (lookup ph net) [
    | none ↦ (net, failed "no provider")
    | some p ↦
        let (q, response) = serve backend host p request in (insert ph q net, answered response)
  ]

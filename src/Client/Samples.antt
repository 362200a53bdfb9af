-- ===== src/Client/Samples.antt =====
-- A system of one provider, and clients of it, for tests and examples.
use mochi_colza.Base.{ℕ, String, Bool, true, none, some, [], ◌∷◌, pos, arith, nat_eq, string_eq}
use mochi_colza.Async.Object.{AsyncResponse}
use mochi_colza.Provider.Samples.{Pipe, busy_provider}
use mochi_colza.Client.Addresses.{Address, Fits}
use mochi_colza.Client.Network.{ProviderHandle, Network}
use mochi_colza.Client.PipelineHandle.{PipelineHandleImpl}
use mochi_colza.Client.Connect.{Client, Member, View, DistributedImpl, block_hash}
use mochi_colza.Client.Start.{Refresh}

abbrev pub server : Address
server = b's' ∷ b'1' ∷ []

abbrev pub ph : ProviderHandle
ph = record { address = server; provider_id = 0 }

-- The provider has the idle pipeline "idle" and the running pipeline "busy"; its group hash is 12.
abbrev pub net : Network Pipe String
net = (ph, busy_provider 4) ∷ []

-- Two ranks of the clients.
abbrev pub rank0 : Client
rank0 = record { self_addr = "c0"; lookup_finds = λ a. true; decimal = λ n. "-1" }

abbrev pub rank1 : Client
rank1 = record rank0 { self_addr = "c1" }

abbrev pub pipeline : String → String → PipelineHandleImpl
pipeline self_addr name = record { name = name; self_addr = self_addr; ph = ph }

-- A handle of a rank to a pipeline of the server, made when the hash of the group was `hash`.
abbrev pub handle : String → String → ℕ → DistributedImpl
handle self_addr name hash = record {
  name = name;
  hash = block_hash;
  pipelines = pipeline self_addr name ∷ [];
  ssg_group_file = "group.ssg";
  group_hash = hash;
  provider_id = 0;
}

abbrev pub member : Member
member = record { id_status = none; id = 12; addr_status = none; address = server }

-- A view of the group in which the server is the only member, with the id 12.
abbrev pub view : View
view = record { loads = true; observes = true; has_size = true; members = member ∷ [] }

abbrev pub refresh : Refresh Pipe String
refresh = record { environment = λ net. net; view = view }

pub server-Fits : Fits server
server-Fits =
    (((λ e. absurd (omega (arith, e))), ((λ e. absurd (omega (arith, e))), tt)), omega arith)

abbrev pub reply : Bool → ℕ → AsyncResponse
reply success n = record {
  received = true;
  lost = none;
  arriving = record { success = success; error = ""; value = some (pos n) };
}

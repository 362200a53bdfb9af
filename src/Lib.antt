-- ===== src/Lib.antt =====
-- Colza, a data staging service: clients stage blocks of data into pipelines that run on the
-- providers of a group of servers, iteration by iteration.
--
-- Parts and files. Paths are from the root of the repository.
--   Base: the shared names, maps and lists.
--   Result: include/colza/ErrorCodes.hpp, RequestResult.hpp, Exception.hpp.
--   Types: include/colza/Types.hpp and src/TypeSizes.hpp.
--   Group: src/SSGUtil.hpp, the hash by which a client and a provider compare their views of the
--   group.
--   Backend: include/colza/Backend.hpp and src/Backend.cpp, the interface that a pipeline
--   implements, and the factory.
--   Provider: src/ProviderImpl.hpp. State has the fields of `ProviderImpl`; Pipelines the handlers
--   createPipeline, destroyPipeline and checkPipeline; Iterations the handlers start, stage,
--   execute, cleanup, abort and leave; Config processConfig; Membership the MoNA addresses and
--   the callback of SSG; Requests the dispatch; Overlap the two halves of a start between which
--   other handlers run. Shared and Threads have the handlers and the membership updates in small steps,
--   over shared objects, in any order:
--   Exclusive the schedules that keep the counter right, Leaving what `leave` does after them, Alone
--   that a handler that runs alone is the one of Iterations, and Races and Destroyed what goes wrong.
--   Facade: src/Provider.cpp. Impl has the constructor and the destructor of src/ProviderImpl.hpp,
--   Objects the `Provider`s of a process, Lifetimes and Finalizing the callbacks that they leave;
--   Bedrock src/BedrockModule.cpp, where it makes and deletes providers.
--   Async: src/AsyncRequest.cpp and src/AsyncRequestImpl.hpp. Object has the shared object, Handles the
--   operations of the class, Programs sequences of them, Storing the assignment of a new request.
--   Client: Network has the providers that a client reaches, whose handlers run at the call, also
--   at an asynchronous one; PipelineHandle src/PipelineHandle.cpp; Asynchronous the assignment of
--   the request that an asynchronous call makes; Addresses, Connect and Following src/Client.cpp,
--   with the broadcasts of rank 0 as a list; Distributed, Start and Collective
--   src/DistributedPipelineHandle.cpp. Stopping and Raising have what the other ranks see of an
--   exception on rank 0; Rows what becomes of requests that every provider accepts, Program the
--   loop of examples/distributed/client.cpp; Outdated, Retrying, Startable and Refreshed the
--   rounds of a start.
--   Admin: src/Admin.cpp. Operations and Shutdown have its functions, a request to leave, which
--   has no response, being sent first and delivered later; Everywhere, Departures and Shutdown
--   what holds when those that go over a group come back; EndToEnd has an administrator who makes
--   a pipeline and the example client that runs it.
--   Dummy: examples/pipeline/DummyBackend.cpp, a backend.
-- A handler is a function from the state and the arguments of the RPC to the new state and the
-- response. A backend's virtual functions are the fields of the record `Backend`.
--
-- Integers. uint64_t and size_t are natural numbers, with the wrap of +=, -= and * written out
-- modulo 2^64; int32_t results are integers. A value that was never assigned is `none`.
--
-- Fuel. Only the loop that asks a member for its MoNA address takes fuel, since the code repeats
-- a failing call without a bound. The retries of start on rank 0 take a list of what SSG answers
-- between the attempts, one entry for each; a run that uses up the list is told apart from one that
-- returns.
--
-- Threads. Provider.Threads cuts a handler where it calls its backend: a part between two such
-- calls is one step, and the steps of different handlers come in any order.
--
-- Not modelled: the clients and handles that src/BedrockModule.cpp makes; the command lines and
-- the set-up of the example programs; threads that overlap between two calls of a backend; a call
-- whose RPC fails after it was sent, although the callbacks and the waits take such a response;
-- the barriers of the clients; logging; the serialization of RPCs; and what the libraries
-- thallium, SSG, MoNA, nlohmann::json and dlopen do, which enters as arguments.

pub mod Base
pub mod Result
pub mod Types
pub mod Group
pub mod Backend
pub mod Provider
pub mod Dummy
pub mod Async
pub mod Client
pub mod Admin
pub mod Facade

-- ===== src/Client.antt =====
-- src/Client.cpp, src/PipelineHandle.cpp, src/DistributedPipelineHandle.cpp: the client side.
pub mod Network
pub mod Addresses
pub mod PipelineHandle
pub mod Connect
pub mod Following
pub mod Connected
pub mod Agreement
pub mod Stopping
pub mod Raising
pub mod Reachable
pub mod Distributed
pub mod Collective
pub mod Asynchronous
pub mod Routing
pub mod Start
pub mod Calling
pub mod Effects
pub mod AllOrNothing
pub mod Startable
pub mod Outdated
pub mod Retrying
pub mod Refreshed
pub mod Checked
pub mod Serving
pub mod Rows
pub mod Program
pub mod Accepting
pub mod Iterating
pub mod Together
pub mod Calls
pub mod Samples
pub mod Counter
mod Examples
mod RetryExamples

-- ===== src/Provider.antt =====
-- src/ProviderImpl.hpp
pub mod State
pub mod Pipelines
pub mod Iterations
pub mod Invariant
pub mod Config
pub mod Setup
pub mod Membership
pub mod Resolving
pub mod Requests
pub mod Histories
pub mod Phases
pub mod Frame
pub mod Overwrite
pub mod Overlap
pub mod Outcomes
pub mod Retry
pub mod Updates
pub mod Shared
pub mod Threads
pub mod Samples
mod Examples

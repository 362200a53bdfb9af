-- ===== src/Async.antt =====
-- src/AsyncRequest.cpp and src/AsyncRequestImpl.hpp: handles of asynchronous RPCs.
pub mod Object
pub mod Handles
pub mod Sharing
pub mod Programs
pub mod Storing
pub mod Waiting
mod Examples

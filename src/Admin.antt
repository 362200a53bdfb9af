-- ===== src/Admin.antt =====
-- src/Admin.cpp: the operations of an administrator.
pub mod Operations
pub mod Everywhere
pub mod Departures
pub mod Shutdown
pub mod Ready
pub mod EndToEnd
mod Examples
mod EndToEndExamples

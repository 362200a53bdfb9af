-- ===== src/Dummy.antt =====
-- examples/pipeline/DummyBackend.hpp and DummyBackend.cpp: the backend that keeps the staged blocks.
pub mod Blocks
pub mod Pipeline
pub mod Laws
mod Examples

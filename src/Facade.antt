-- ===== src/Facade.antt =====
-- src/Provider.cpp, and the constructor and the destructor of src/ProviderImpl.hpp.
pub mod Impl
pub mod Objects
pub mod Finalizing
pub mod Lifetimes
pub mod Built
pub mod Bedrock
mod Examples
mod BedrockExamples

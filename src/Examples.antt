-- ===== src/Examples.antt =====
-- The theorems at concrete inputs, and tests of the definitions.
pub mod Provider
pub mod Session
pub mod Rag
pub mod Access
pub mod Tools
pub mod Traces
pub mod Cache
pub mod Agent
pub mod Knowledge
pub mod LongTerm
pub mod Retrieval
pub mod Prompt
pub mod Config
pub mod Ask

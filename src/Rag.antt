-- ===== src/Rag.antt =====
-- internal/rag: documents to chunks, chunks to the context of a prompt, and the rewriting of a query.
pub mod Chunker
pub mod Context
pub mod Rewrite

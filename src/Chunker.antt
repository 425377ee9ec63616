-- ===== src/Chunker.antt =====
-- packages/rag/src/rag/ingestion/chunkers/hierarchical.py, by its parts.
pub mod Defs
pub mod Parents
pub mod Children
pub mod Pages
pub mod Document
mod Examples

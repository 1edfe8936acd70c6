-- ===== src/Rag.antt =====
-- The search in the reference texts and the graph of terms: cpa_first/rag.
pub mod Index
pub mod Search
pub mod TopK
mod Tests

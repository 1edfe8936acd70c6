-- ===== src/Explain.antt =====
-- Generated explanations of exam questions: cpa_first/explain_gen, eval_gen/_json_extract.py and real_exams.py.
pub mod Dict
pub mod Extract
pub mod Batch
pub mod Checkpoint
pub mod Generate
pub mod Tutorial
pub mod Summary
pub mod Batches
pub mod Gate
pub mod Verified
mod Tests

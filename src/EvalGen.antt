-- ===== src/EvalGen.antt =====
-- The generation and validation of questions: cpa_first/eval_gen.
pub mod Validate
pub mod Checked
pub mod Generate
pub mod Key
pub mod Batch
mod Tests

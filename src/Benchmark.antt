-- ===== src/Benchmark.antt =====
-- The grading of a solver on a set of questions: cpa_first/benchmark/runner.py.
pub mod Grade
pub mod Groups
pub mod Run
pub mod Totals
pub mod Rounded
pub mod PerGroup
pub mod Report
mod Tests

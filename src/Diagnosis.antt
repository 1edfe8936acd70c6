-- ===== src/Diagnosis.antt =====
-- The diagnosis of an attempt: cpa_first/engine/problem_diagnosis.py. `Attempt` is the diagnosis, `Verdict`
-- proves.
pub mod Attempt
pub mod Verdict
mod Tests

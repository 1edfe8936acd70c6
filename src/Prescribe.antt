-- ===== src/Prescribe.antt =====
-- Prescriptions: cpa_first/engine/prescribe.py and the registry cpa_first/subjects.py. `Subjects` is the registry,
-- `Rules` which rules apply to a user, `Risk` the risk score, `Whole` the prescription; `Bounds` and `Contents` prove.
pub mod Subjects
pub mod Rules
pub mod Risk
pub mod Bounds
pub mod Whole
pub mod Contents
mod Tests

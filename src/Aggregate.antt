-- ===== src/Aggregate.antt =====
-- What the logs say of a user: cpa_first/engine/aggregate.py. `Signals` holds the counts, the risk tags and the
-- stage, `State` the whole state; `Tags`, `Level` and `Subjects` prove.
pub mod Signals
pub mod Tags
pub mod Level
pub mod State
pub mod Subjects
mod Tests

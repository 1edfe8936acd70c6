-- ===== src/Recommend.antt =====
-- The recommendation of problems: cpa_first/engine/recommend.py. `Score` is the score of a problem, `Choice` what
-- is recommended and skipped, `Balanced` the turns of the subjects; `Priority`, `Ranked`, `Skips`, `Fair` and
-- `Turns` prove.
pub mod Score
pub mod Choice
pub mod Priority
pub mod Ranked
pub mod Skips
pub mod Balanced
pub mod Fair
pub mod Turns
mod Tests

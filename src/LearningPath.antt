-- ===== src/LearningPath.antt =====
-- The learning path: cpa_first/engine/learning_path.py. `Trace` is the breadth-first search from the weak
-- terms to their prerequisites and the choice and order of the path's terms, `Match` the matching of
-- labels with terms, `Resources` what a node lists. `Visit`, `Ready`, `Chain`, `Loop`, `Roots` and
-- `Shortest` prove. The variants of a label are left out.
pub mod Trace
pub mod Visit
pub mod Ready
pub mod Chain
pub mod Loop
pub mod Roots
pub mod Shortest
pub mod Match
pub mod Resources
mod Tests

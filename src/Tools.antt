-- ===== src/Tools.antt =====
-- The tools that a solver may call: cpa_first/solver/tools.py.
pub mod Floats
pub mod Dates
pub mod Run
mod Tests

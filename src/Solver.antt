-- ===== src/Solver.antt =====
-- The solvers of exam questions: solver.py, ensemble.py, routing.py and reasoned.py of cpa_first/solver. `Ensemble`,
-- `Routing`, `Closest`, `Reasoned` and `Modes` hold the code; `Majority`, `RouteText`, `Nearest`, `Answers`, `Range` and
-- `Retry` prove.
pub mod Ensemble
pub mod Majority
pub mod Routing
pub mod RouteText
pub mod Closest
pub mod Nearest
pub mod Reasoned
pub mod Answers
pub mod Modes
pub mod Range
pub mod Retry
mod Tests
mod RouteTests
mod ModeTests

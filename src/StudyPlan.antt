-- ===== src/StudyPlan.antt =====
-- The study plan up to the exam: cpa_first/engine/study_plan.py. `Stage` holds the tables of the stages,
-- `Schedule` the number of weeks and their distribution over the stages, `Weeks` the list of weeks,
-- `Content` what each week studies and `Feasibility` the verdict on the hours. The other children
-- prove.
pub mod Stage
pub mod Schedule
pub mod Counts
pub mod Distribution
pub mod Weeks
pub mod Calendar
pub mod Content
pub mod Teaching
pub mod Spread
pub mod Feasibility
mod Tests

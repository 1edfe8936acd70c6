-- ===== src/Records.antt =====
-- What the service stores of a user's study: user states, prescriptions, mistake logs, attempts and review overrides
-- (cpa_first/db/repositories.py, with their rows of cpa_first/db/models.py). `Prescriptions`, `Logs`, `States` and
-- `Overrides` hold the queries, the last three with their lemmas; `Rows` and `Active` prove.
pub mod States
pub mod Prescriptions
pub mod Rows
pub mod Active
pub mod Logs
pub mod Overrides
mod Tests

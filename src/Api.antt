-- ===== src/Api.antt =====
-- The HTTP application: cpa_first/api/main.py.
pub mod Model
pub mod Practice
pub mod Order
pub mod Pages
pub mod Attempts
pub mod Gate
pub mod Opens
pub mod Review
pub mod Reviewed
pub mod Study
pub mod Terms
pub mod Found
pub mod Kept
mod Tests
mod StudyTests

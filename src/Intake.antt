-- ===== src/Intake.antt =====
-- Package intake: drafts under review and their way into rows (internal/intake).
pub mod Dates
pub mod Collisions
pub mod Flags
pub mod Payloads
pub mod Ordering
pub mod Store
pub mod TagVocabulary
pub mod Resolvers
pub mod Approval
pub mod Extraction
pub mod Staging
mod Samples
mod Witnesses

-- ===== src/FitGate.antt =====
-- Package fitgate: the deterministic scoring pass between the extraction of a posting's signals and
-- the generation of a resume (internal/fitgate/scorer.go).
pub mod Tokens
pub mod Alternatives
pub mod Signals
pub mod Levels
pub mod Matching
pub mod Skills
pub mod Capability
pub mod Preferences
mod Samples
mod Witnesses

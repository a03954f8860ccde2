-- ===== src/Generation.antt =====
-- Package generation: what goes into a resume and what its document must keep (internal/generation).
pub mod Words
pub mod Reconcile
pub mod Ladder
pub mod Sections
pub mod Checklist
mod Witnesses

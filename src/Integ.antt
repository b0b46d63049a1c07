-- ===== src/Integ.antt =====
-- scripts/verify-integ.ts: the end-to-end check of a deployed integ stack.
pub mod Script
pub mod Services
pub mod Keys
pub mod Rows
pub mod Outputs
pub mod Marker
pub mod Success
pub mod Query
pub mod Sections
pub mod Program
pub mod Settles
pub mod Deadlines
pub mod Termination
pub mod Evidence
pub mod Checks
pub mod Compaction
pub mod Verdict
pub mod Tests

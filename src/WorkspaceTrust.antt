-- ===== src/WorkspaceTrust.antt =====
-- tools/workspace_trust.py: consent records for workspaces, and the transitions over them.
pub mod Paths
pub mod Model
pub mod Admission
pub mod Step
pub mod Grant
pub mod Outcomes
pub mod Ledger
pub mod Consent
pub mod Replay

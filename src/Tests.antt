-- ===== src/Tests.antt =====
-- Concrete runs: the repository's own vectors and small inputs, and the theorems at them.
mod PageSuite
mod CheckpointSuite
mod BootstrapSuite
mod RegistryRuns
mod VersionRuns
mod WorkspaceRuns
mod ResolutionRuns
mod EnvironmentRuns
mod GrantRuns
mod RevokeRuns
mod PostureRuns
mod PostureSuite
mod UmbrellaRuns
mod SignerRuns
mod SignerRows
mod SourceRuns
mod SurfacingRuns

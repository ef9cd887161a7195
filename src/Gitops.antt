-- ===== src/Gitops.antt =====
-- daemon/internal/gitops: desired state, live state, the diff engine and the apply engine.
pub mod State
pub mod Validate
pub mod System
pub mod Live
pub mod Yaml
pub mod Drift
pub mod Diff
pub mod Plan
pub mod Apply
pub mod Approval
mod Examples

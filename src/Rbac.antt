-- ===== src/Rbac.antt =====
-- Roles and permissions: daemon/internal/security/rbac.go, daemon/internal/security/session.go and
-- daemon/internal/middleware/rbac.go. The tables are lists of their rows, with the ids that
-- daemon/cmd/dplaned/schema.go gives them; no connection of the daemon switches foreign keys on, so
-- that a deletion does not cascade. A call happens at a moment: the clock of the process, the text of
-- datetime('now'), and whether the database answers.
pub mod Tables
pub mod Cache
pub mod Check
pub mod Manage
pub mod Session
pub mod Middleware
mod Examples

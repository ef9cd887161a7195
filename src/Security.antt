-- ===== src/Security.antt =====
-- daemon/internal/security: the whitelist of commands, the validators of names and paths, the
-- permissions of roles, and sessions.
pub mod Regex
pub mod Chars
pub mod Command
pub mod Whitelist
pub mod Validate
pub mod Names
mod Examples

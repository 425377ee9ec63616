-- ===== src/Enforcer.antt =====
-- packages/agents/src/agents/shared/citation_enforcer.py, by its parts.
pub mod Patterns
pub mod Checks
pub mod Quotes
pub mod Validate
pub mod Verdict
pub mod Counts
pub mod Examples

-- ===== src/Authz.antt =====
-- internal/authz: who may execute a tool.
pub mod Kit
pub mod Request
pub mod Escape
pub mod Tuples
pub mod Model
pub mod Embedded
pub mod Rules

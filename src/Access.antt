-- ===== src/Access.antt =====
-- src/assistant_runtime/principal.py and app/access: who a caller is, and what a principal may reach.
pub mod Principals
pub mod Service
pub mod Named
pub mod Tokens
pub mod Ownership
mod Examples

-- ===== src/Auth.antt =====
-- The authentication service: auth/src/repositories/credentials.repository.ts over the tables of
-- auth/scripts, and auth/src/services/auth.service.ts.
pub mod Tables
pub mod Hex
pub mod Password
pub mod Service
pub mod Marks
pub mod Calls
pub mod Reuse
pub mod Unique
pub mod Safety
pub mod Oldest
pub mod Limits
pub mod Examples

-- ===== src/Auth.antt =====
-- internal/auth/auth.go: authentication of callers, their roles and tools, the credentials of their
-- roles, and the gate in front of the admin endpoints.
pub mod Roles
pub mod Authenticate
pub mod Oidc
pub mod Admin
pub mod Store
pub mod Cache
mod Tests

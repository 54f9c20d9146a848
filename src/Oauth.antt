-- ===== src/Oauth.antt =====
-- The OAuth connections of callers to upstreams in internal/auth: tokenstore.go, oauth_refresh.go,
-- oauth_resolver.go and oauth_handler.go.
pub mod Tokens
pub mod Refresh
pub mod Resolver
pub mod Flow
pub mod Events
pub mod Granted
pub mod Connect
mod Tests

-- ===== src/Transport.antt =====
-- internal/transport: the HTTP transport and the reader of Server-Sent Events.
pub mod Http
pub mod Sse
mod Tests

-- ===== src/Proxy.antt =====
-- internal/proxy: the handlers of tools/list and tools/call.
pub mod Params
pub mod Call
pub mod Listing
mod Tests

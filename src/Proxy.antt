-- ===== src/Proxy.antt =====
-- internal/proxy/proxy.go: the data plane.
pub mod Headers
pub mod Auth
pub mod Gate
pub mod Rewrite
pub mod Upstream
pub mod Merged
pub mod Respond
pub mod Tunnel
pub mod Pipe
pub mod Filled
pub mod Delivered
pub mod Billing
pub mod Serve
pub mod Answer
pub mod Refused
pub mod Alike
pub mod Secrecy

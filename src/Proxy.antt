-- ===== src/Proxy.antt =====
-- proxy.go: what the HTTP proxy does to requests and responses, and the DNS mapping.
pub mod Pages
pub mod Serving
pub mod Setup
pub mod Env
pub mod Replace
pub mod Modify
pub mod Encoding
pub mod Dns

-- ===== src/ModelProxy.antt =====
-- internal/modelproxy: session tokens, and the proxy that exchanges them for the upstream key.
pub mod Token
pub mod Proxy

-- ===== src/Api.antt =====
-- internal/api: the session store, and the HTTP API over it.
pub mod Store
pub mod Requests
pub mod Server

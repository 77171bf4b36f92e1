-- ===== src/Gateway.antt =====
-- pkg/gateway.
pub mod Routes

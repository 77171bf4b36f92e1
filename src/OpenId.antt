-- ===== src/OpenId.antt =====
-- pkg/auth/openid.
pub mod Cache
pub mod Middleware

-- ===== src/Mempool.antt =====
-- mempool/: the intent store, the rate limiter and the HTTP handlers.
pub mod Store
pub mod RateLimit
pub mod Server

-- ===== src/Counter.antt =====
-- The traffic accounting and the rate limits of the agent's connections (counter/).
pub mod RateLimit
pub mod Traffic
pub mod Limited
mod Tests

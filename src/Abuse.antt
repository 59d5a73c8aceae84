-- ===== src/Abuse.antt =====
-- abuse/: rate limits, automation scoring and challenges.
pub mod RateLimit
pub mod Suspicion
pub mod Challenge

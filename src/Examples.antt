-- ===== src/Examples.antt =====
-- Concrete instances of the interfaces, and the theorems applied at concrete inputs.
pub mod Apis
pub mod SlotsRuns
pub mod HstsRuns
pub mod ChainRuns
pub mod CorsRuns
pub mod AuthRuns
pub mod BodyRuns
pub mod CacheRuns
pub mod PolicyRuns
pub mod RetryRuns
pub mod ProxyRuns
pub mod Queues

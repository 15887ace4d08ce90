-- ===== src/Cache.antt =====
-- The HTTP cache of src/net/cache.rs.
pub mod Dates
pub mod Directives
pub mod Entry
pub mod Age
pub mod Decide
pub mod Freshness
pub mod Storable
pub mod Contents
pub mod Charges
pub mod Budget

-- ===== src/Hsts.antt =====
-- src/net/hsts.rs: HTTP Strict Transport Security. `Grammar` reads the header, `Store` is the
-- in-memory store, `Policy` records what a response says and decides which hosts are known; the
-- other modules prove what these promise. An instant is a number of seconds.
pub mod Grammar
pub mod RoundTrip
pub mod Fuel
pub mod Directives
pub mod Store
pub mod Eviction
pub mod Policy
pub mod Matching
pub mod Effects

-- ===== src/Cors.antt =====
-- src/net/cors.rs and src/net/cors/preflight.rs: Cross-Origin Resource Sharing. `Kinds` has the
-- errors and the safelists, `Headers` the header lists and filters, `Check` the CORS check and the
-- preflight response, `Grants` the preflight cache; the other modules prove what these promise.
pub mod Kinds
pub mod Headers
pub mod Check
pub mod Grants
pub mod Names
pub mod Readable
pub mod Decisions
pub mod Expiry

-- ===== src/FetchMetadata.antt =====
-- src/net/fetch_metadata.rs: the kinds of requests, and the headers that tell a server about them.
pub mod Kinds
pub mod Rules
pub mod Disclosure

-- ===== src/Web.antt =====
-- What the crates `http` and `url` provide, as interfaces: the model's definitions take them as
-- parameters, with the documented behaviour that the theorems use as laws.
pub mod Channels
pub mod Errors
pub mod Events
pub mod Headers
pub mod Parts
pub mod Urls

-- ===== src/Attr/Catalogue.antt =====
-- The classes of include/stunxx/attributes as implementations of the interface `Coded`: for each one,
-- its permitted attributes with their values and the laws.
pub mod Fixed
pub mod Structured

-- ===== src/Attr/Total.antt =====
-- The decoders of all classes on bytes from anywhere.
pub mod Reads
pub mod Plain
pub mod Parts
pub mod Every

-- ===== src/Tests.antt =====
-- The theorems at concrete messages and attributes.
mod Attributes
mod Checksum
mod Tables
mod Sample
mod Messages
mod Encoding
mod Lists
mod Runs
mod ReadsBack

-- ===== src/Attr.antt =====
-- include/stunxx/attributes/: the attributes of a message, one module for each header file.
pub mod Concept
pub mod Frame
pub mod Written
pub mod Numeric
pub mod Transport
pub mod EvenPort
pub mod Marker
pub mod Family
pub mod Strings
pub mod Data
pub mod Raw
pub mod Channel
pub mod Words
pub mod Integrity
pub mod Setters
pub mod Life
pub mod Phrase
pub mod ErrorCode
pub mod AddressError
pub mod XorAddress
pub mod Unknown
pub mod Algorithm
pub mod Algorithms
pub mod Keys
pub mod Messages
pub mod Named
pub mod Catalogue
pub mod Total

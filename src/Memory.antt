-- ===== src/Memory.antt =====
-- Byte buffers behind `std::span`, as the library reads and writes them (std::memcpy, std::memset,
-- operator[], first, subspan). `fault` is an access outside the span that the code was handed,
-- which C++ leaves undefined.
mod Defs
pub mod Laws
pub mod Returns
pub use Defs.{Bytes, Outcome, done, fault, ◌>>=◌, done-injective}
unfoldable pub use Defs.{store, byte_at, fetch, fetch_from}

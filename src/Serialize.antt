-- ===== src/Serialize.antt =====
-- serialize.rs: payload formats.
pub mod Codec
pub mod Value
pub mod Numbers
pub mod Serde
pub mod Superjson
mod Debug
pub mod Formats
pub mod Input
pub mod Errors
pub mod RoundTrip
pub mod InputRoundTrip
pub mod ErrorRoundTrip
pub mod Coder
pub mod BestEffort

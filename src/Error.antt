-- ===== src/Error.antt =====
-- error.rs: the error codes, the one error type, and the classification of database errors.
pub mod Code
pub mod Sqlx
pub mod DbosError
pub mod Laws
pub mod Constructors

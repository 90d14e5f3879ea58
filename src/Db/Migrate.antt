-- ===== src/Db/Migrate.antt =====
-- db/migrate.rs: the schema migrations, and the quoting of db/mod.rs that they use.
pub mod Ident
pub mod Quoting
pub mod Render
pub mod Build
pub mod Versions
pub mod Run
pub mod Progress
pub mod Loop
pub mod Laws
pub mod Rendering

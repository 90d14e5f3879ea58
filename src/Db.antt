-- ===== src/Db.antt =====
-- db/: the tables of the system database, and the statements over them, one module to a file.
pub mod WorkflowStatusType
pub mod Row
pub mod Tables
pub mod View
pub mod Status
pub mod Queue
pub mod Steps
pub mod Notifications
pub mod Streams
pub mod Management
pub mod Migrate

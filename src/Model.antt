-- ===== src/Model.antt =====
-- The data that the services share: identifiers, enumerations and rows of the database.
pub mod Uuid
pub mod Enums
pub mod Rows
pub mod Db

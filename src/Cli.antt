-- ===== src/Cli.antt =====
-- cli: the command line tool.
pub mod Machine
pub mod Db
pub mod Lines
pub mod Schema
pub mod Change
pub mod Templates
pub mod Project
pub mod Compose
pub mod Folder
pub mod Migrate
mod Tests

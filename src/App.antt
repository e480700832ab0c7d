-- ===== src/App.antt =====
-- internal/app: the commands. A flag that cobra says was changed is an option that is there; a command
-- works on the database that openInstanceDB has opened and migrated, and returns what it prints.
pub mod Support
pub mod Jobs
pub mod Update
pub mod Armed
pub mod Client
pub mod Instance
pub mod InstanceDb
pub mod Scheduler
pub mod Runs
pub mod Print
pub mod Version
pub mod CommandLine

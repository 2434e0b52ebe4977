-- ===== src/Examples.antt =====
-- Concrete runs of the program's parts, by component.
pub mod Limits
pub mod Licences
pub mod Clients
pub mod Data
pub mod Stores
pub mod Rows
pub mod Requests
pub mod Jobs
pub mod Links
pub mod Orders
pub mod Sites
pub mod Settings
pub mod Starts
pub mod Tables

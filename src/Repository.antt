-- ===== src/Repository.antt =====
-- internal/repository: the queries, as functions of the tables' rows. Each call is told whether the
-- database answers.
pub mod BinaryFiles
pub mod Tables
pub mod VirtualTree
pub mod Statistics
pub mod Duplicates
pub mod Dashboard

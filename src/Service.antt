-- ===== src/Service.antt =====
-- internal/service: the jobs that run beside the server.
pub mod Dedup
pub mod Migration
pub mod Worker
pub mod Dashboard

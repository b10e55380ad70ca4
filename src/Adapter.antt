-- ===== src/Adapter.antt =====
-- The SQLite adapter: its tables (Db), its reads (Reads), the checks of a landing (Checks) and the
-- landing of a set in one transaction (Landing), with what they keep true below it.
pub mod Db
pub mod Exec
pub mod Reads
pub mod Checks
pub mod Landing

-- ===== src/Import.antt =====
-- What an import takes of the files offered: src/kb/skipping.py.
pub mod Chain
pub mod Files
pub mod Skipping
pub mod Skipped
pub mod Order
pub mod Taking
pub mod Closed

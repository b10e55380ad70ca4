-- ===== src/Tests.antt =====
-- Concrete inputs on which the theorems are applied.
mod Store
mod Texts
mod Content
mod Types
mod Import
mod Draft
mod Standing
mod Declared

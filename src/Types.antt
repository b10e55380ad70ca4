-- ===== src/Types.antt =====
-- A type read through what a corpus (the port, or a draft over it) holds: of
-- src/kb/composition.py the type versions it keeps, the type that an IRI belongs to and the
-- references of a schema; and of src/kb/definitions.py the checks of a type as it is written.
pub mod Composition
pub mod Definitions
pub mod Nearest
pub mod Declared

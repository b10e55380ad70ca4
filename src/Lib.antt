-- ===== src/Lib.antt =====
-- kb keeps artifacts of YAML content under IRIs, each of a version of a type, linked to each other
-- and changed in sets that land whole. A request is converted to checked values (Requests), its
-- changes are drafted and checked against their types (Types), and the port lands the set in one
-- SQLite transaction that checks again what may have moved since (Adapter), with an entry in the
-- history for each change (Journal).
--
-- Which file models what:
-- - Names: src/kb/names.py, all of it, each function by its name (`split` is `split_iri`, `order`
--   the comparison `order_le`). A regular expression is a scan of the text by its automaton.
-- - Port: src/kb/port_values.py and the refusals of src/kb/port.py.
-- - Adapter: src/kb/sqlite_store.py, sqlite_checks.py, sqlite_types.py, and of sqlite_reads.py what a
--   landing reads. Db has the tables as lists of rows, Exec the statements, which leave the tables
--   beside a refusal, Reads the queries, Checks the checks, Landing `land` with its savepoint and
--   its write lock. Below Landing: what one change leaves (Rows), the loop (Loop), the last change
--   of an artifact (Links), what the checks have found (Checked), a landing that is not refused
--   (Run), and the theorems (Integrity, Atomic, History, Through).
-- - Content: content as src/kb/canonical.py reads it; settled.py (Settled, Order), places.py
--   (Places), item_names.py (Slug, Numbered, Items, Naming), content_values.py (Reading),
--   offers.py (Offers), keywords.py (Keywords), all of src/kb.
-- - Requests: src/kb/values.py (Values), signatures.py (Signatures), changes.py (Changes) and
--   requests.py (Reading).
-- - Refusals: src/kb/refusals.py, type_refusals.py (Types) and file_refusals.py (Files): what each
--   fault is said of and its rule, without its message.
-- - Types: of src/kb/composition.py (Composition, and what a schema is built on and declares, with
--   what is proved of it, in and below Declared) and definitions.py (Definitions).
-- - Links: src/kb/links.py; `handed` and what it reads in Handed.
-- - Draft: src/kb/draft.py, each method a function of the draft, over a record of what the port reads;
--   the links that a draft leaves in Linked. Steps has what a set does to a draft.
-- - Standing: src/kb/standing.py, with the readers of a type in Removal; what guards a set that lands
--   (Nearer, Landed, over the adapter's Landing).
-- - Import: src/kb/skipping.py (Chain, Skipping, and `beneath` and `_read_through` in Files), of
--   src/kb/offers.py an offered file (Files), of src/kb/examining.py the order that files are read in
--   (Order) and of src/kb/importing.py what is taken (Taking).
-- - Journal: of src/kb/journal.py the minting of ids.
-- - Base: Python's equality, lists, dicts, `str` methods and decimal numbers.
-- - Tests: the theorems at concrete inputs, and runs.
--
-- An artifact, a kind and a type are the texts of their IRIs. A method's refusal or exception is a
-- value. The content that the adapter keeps and the record of an entry are types it never looks
-- into. A method of the adapter that the source writes in SQL is the function that the statement
-- computes; uniqueness that a table's key demands is checked where a landing can break it, which is
-- a set's batch and a type version's IRI (an entry's id is checked by `_unheld` before, and a change
-- deletes an artifact's rows before it inserts them).
--
-- The numbering of a name tries as many candidates as there are names taken and one more, and the
-- search of a chain of files has a round for each file that one leads to and one more; both are proved
-- enough. A visit of the types has fuel for each name that the directory brings, which is proved enough
-- where no type is read through one that is read through it. A schema's bases are followed on a fuel
-- that is given: they may have no end, and have one, for which some fuel is proved enough, where no type
-- leads back to itself. `held_back` has a fuel that is given too. Every other function is by structural
-- recursion.
--
-- A method of a draft that keeps what it reads gives the draft that it leaves; what `links_in`,
-- `waiting` and a corpus read through is not kept.
--
-- Not modelled: of the write pipeline between the requests and the port the edits and checks
-- (src/kb/edits.py, naming.py, drafting.py, handing.py, validation.py, write.py); the faults that an
-- import finds in a file and its comparison with the store (of examining.py, judging.py,
-- comparing.py); export and queries; YAML itself, which ruamel.yaml reads and writes; the clients, the
-- servers and the commands. Parameters stand for YAML, `datetime` and what a caller passes as a
-- function.
pub mod Base
pub mod Names
pub mod Port
pub mod Adapter
pub mod Content
pub mod Requests
pub mod Journal
pub mod Refusals
pub mod Types
pub mod Links
pub mod Draft
pub mod Standing
pub mod Import
mod Tests

-- ===== src/Fixtures.antt =====
-- The commands that load records, documents and glossary terms (cernopendata/modules/fixtures/cli.py),
-- and the functions of that file that releases call.
pub mod Store
pub mod Entries
pub mod Load
pub mod Tests

-- ===== src/Records.antt =====
-- The files of published records: file indices (cernopendata/api.py), how they are loaded
-- (cernopendata/modules/fixtures/cli.py) and refreshed, and the pages in which the portal shows files
-- (cernopendata/modules/records/utils.py).
pub mod Index
pub mod Flush
pub mod Load
pub mod Pages
mod Tests

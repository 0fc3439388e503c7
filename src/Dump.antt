-- ===== src/Dump.antt =====
-- The task that compares a dump of the files on EOS with the search index (cernopendata/tasks.py).
pub mod Entry
pub mod Plan
pub mod Run
pub mod Tests

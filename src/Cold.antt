-- ===== src/Cold.antt =====
-- Cold storage (cernopendata/cold_storage): the copies of files between disk and tape.
pub mod Model
pub mod Catalog
pub mod Storage
pub mod Manager
pub mod Service
pub mod Requests
pub mod Availability
pub mod Tests

-- ===== src/Release.antt =====
-- The curation of releases (cernopendata/modules/releases): the model of a release, the
-- validations that run over it, the operations of `class Release`, and the background tasks.
pub mod Model
pub mod Validate
pub mod Edit
pub mod Bulk
pub mod Fix
pub mod Publish
pub mod Payload
pub mod Views
pub mod Lifecycle
pub mod Images
pub mod Tests

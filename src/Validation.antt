-- ===== src/Validation.antt =====
-- The validations of a release (cernopendata/modules/releases/validations): each gives a `Validator`.
pub mod Expected
pub mod Pid
pub mod Slug
pub mod Recid
pub mod Files
pub mod Doi
pub mod Cms2016
pub mod Links
pub mod Lawful
pub mod Registry
mod Tests

-- ===== src/App.antt =====
-- The application layer (app/).
pub mod Logs
pub mod Reindex
pub mod Assignment
pub mod Abort
pub mod Progress
pub mod Samples
pub mod Objects
pub mod Releases
pub mod Artifacts
pub mod Uploads
pub mod Instructions
pub mod Creation
pub mod Decommission
pub mod Queries
pub mod Listing

-- ===== src/Store.antt =====
-- The data store (store/, store/mongo/).
pub mod Logs
pub mod Listing
pub mod Mongo
pub mod Errors
pub mod World
pub mod Exec
pub mod Devices
pub mod Deployments
pub mod Insertion
pub mod Uploads
pub mod Images
pub mod Releases
pub mod Finish
pub mod Ledger
pub mod Live
pub mod Settings

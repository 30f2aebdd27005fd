-- ===== src/Model.antt =====
-- The data model of the service (model/).
mod Tests
pub mod Log
pub mod Samples
pub mod Status
pub mod Stats
pub mod Validation
pub mod Deployment
pub mod Request
pub mod Image
pub mod Release
pub mod Link
pub mod Settings
pub mod Text
pub mod Limited
pub mod Signature
pub mod Query
pub mod Limit
pub mod DeviceDeployment
pub mod Instructions

-- ===== src/Http.antt =====
-- The HTTP interface (api/http): what a request carries, what a handler writes, and the handlers.
pub mod Logs
pub mod View
pub mod Request
pub mod Calls
pub mod Multipart
pub mod Artifacts
pub mod Deployments
pub mod Configuration
pub mod Devices
pub mod Listing
pub mod Releases
pub mod Tenants
mod Tests

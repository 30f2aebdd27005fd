-- ===== src/Store/World.antt =====
-- What the operations read and change: the collections of the database, and the world around it.
use Prim.Native.Nat.{◌/◌}
use deployments.Shared.{ℕ, ◌*◌, String, Bool, Option, none, some, List}
use deployments.Model.Deployment.{Deployment}
use deployments.Model.DeviceDeployment.{DeviceDeployment, DeviceDeploymentLastStatus}
use deployments.Model.Image.{Image}
use deployments.Model.Link.{UploadLink}
use deployments.Model.Release.{Release}
use deployments.Model.Settings.{StorageSettings}
use deployments.Model.Limit.{Limit}
use deployments.Model.Log.{DeploymentLog}

-- the update types that a tenant's artifacts have
pub record UpdateTypes : Type 0 where
  pub tenant_id : String
  pub types : List String

-- Collections of one tenant: "devices" holds the device deployments. The upload links and
-- the update types of all tenants stand in one collection each; `base_last_status` is the collection of
-- last statuses in the database of the requests that have no tenant; the storage settings are one document or none.
pub record Database : Type 0 where
  pub devices : List DeviceDeployment
  pub deployments : List Deployment
  pub images : List Image
  pub devices_last_status : List DeviceDeploymentLastStatus
  pub base_last_status : List DeviceDeploymentLastStatus
  pub uploads : List UploadLink
  pub releases : List Release
  pub settings : Option StorageSettings
  pub limits : List Limit
  pub update_types : List UpdateTypes
  pub logs : List DeploymentLog

-- a time as the database keeps it
abbrev pub milliseconds : Option ℕ → Option ℕ
milliseconds none = none
milliseconds (some t) = some (t / 1000000 * 1000000)

-- What happens to a call of the database: it is answered, or its request is lost and nothing
-- changes, or its reply is lost after the change.
pub data Fault : Type 0 where
  answered lost_request lost_reply : Fault

-- a request to reindex a device, a device deployment (of a device, a deployment and an identifier)
-- or several of these, submitted to the workflows service
pub data Reindex : Type 0 where
  device : String → Reindex
  device_deployment : String → String → String → Reindex
  device_deployments : List (String × String × String) → Reindex

-- `faults` is what happens to the next calls of the database; after its end every call is answered.
-- The n-th reading of the clock is `times n`, the n-th random UUID is `uuids n`. `reporting` says
-- that a reporting client is set, `tenant` is the tenant of the request's identity, `accepts` says
-- which requests the workflows service takes, and `submitted` holds those it took, the last one first.
pub record World : Type 0 where
  pub db : Database
  pub open db use *
  pub faults : List Fault
  pub times : ℕ → ℕ
  pub reads : ℕ
  pub uuids : ℕ → String
  pub drawn : ℕ
  pub tenant : String
  pub reporting : Bool
  pub accepts : Reindex → Bool
  pub submitted : List Reindex

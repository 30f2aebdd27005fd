-- ===== src/App/Queries.antt =====
-- What the application layer reads for its callers: the deployment and its counters, the limits,
-- the storage settings and the last statuses of devices (app/app.go, app/app_last_status.go, and
-- store/mongo/datastore_mongo_last_status.go).
pub mod Limits
mod Tests
use deployments.Shared.{ℕ, String, Bool, ◌&&◌, Option, none, some, List, ◌==◌}
use deployments.Shared.Tests.{if◌then◌else◌, ltb}
use deployments.Shared.Lists.{any, length}
use deployments.Model.Stats.{Stats}
use deployments.Model.Deployment.{Deployment}
use deployments.Model.DeviceDeployment.{DeviceDeploymentLastStatus}
use deployments.Model.Limit.{Limit}
use deployments.Model.Settings.{StorageSettings}
use deployments.Store.Errors.{
  Error, Result, ok, err, wrapped, limit_not_found, no_ids_given, array_too_big, nil_dereference,
}
use deployments.Store.Exec.{
  Exec, pure, raise, refuse_if, or_raise, wrap, attempt, give_back, query, tenant_of_request, ◌>>=◌,
  ◌>>◌,
}
use deployments.Store.Mongo.{Mongo, natural}
use deployments.Store.Deployments
use deployments.Store.Devices
use deployments.Store.Settings
use deployments.App.Assignment.{set_deployment_device_count_if_unset}

-- MaxDeviceArrayLength
abbrev pub max_device_array_length : ℕ
max_device_array_length = 1024

abbrev pub stats_of : Option Deployment → Option Stats
stats_of none = none
stats_of (some d) = some d.stats

-- a limit that is not set is 0
abbrev pub limit_or_zero : String → Result Limit → Result Limit
limit_or_zero name (ok limit) = ok limit
limit_or_zero name (err limit_not_found) = ok (record { name = name; value = 0 })
limit_or_zero name (err e) = err (wrapped e)

module _ (mongo : Mongo) where
  unfoldable pub get_limit : String → Exec Limit
  get_limit name = do r ← attempt (Settings.get_limit mongo name); give_back (limit_or_zero name r)

  -- a deployment that is not there is followed as a nil pointer
  unfoldable pub get_deployment : String → Exec Deployment
  get_deployment id = do
    found ← wrap (Deployments.find_deployment_by_id mongo id)
    deployment ← or_raise nil_dereference found
    set_deployment_device_count_if_unset mongo deployment

  unfoldable pub get_deployment_stats : String → Exec (Option Stats)
  get_deployment_stats id = do
    found ← wrap (Deployments.find_deployment_by_id mongo id)
    pure (stats_of found)

  unfoldable pub has_deployment_for_device : String → String → Exec Bool
  has_deployment_for_device id device_id = Devices.has_deployment_for_device mongo id device_id

  -- GetLastDeviceDeploymentStatus of the store
  unfoldable pub get_last_device_deployment_status :
      List String → Exec (List DeviceDeploymentLastStatus)
  get_last_device_deployment_status ids = do
    tenant ← tenant_of_request
    query (λ db.
        mongo.find DeviceDeploymentLastStatus
          (λ l. any (λ id. id == l.device_id) ids && l.tenant_id == tenant) natural
          db.devices_last_status)

  unfoldable pub get_device_deployment_last_status :
      List String → Exec (List DeviceDeploymentLastStatus)
  get_device_deployment_last_status ids = do
    refuse_if (ltb (length ids) 1) no_ids_given
    refuse_if (ltb max_device_array_length (length ids)) array_too_big
    get_last_device_deployment_status ids

unfoldable pub get_storage_settings : Exec (Option StorageSettings)
get_storage_settings = wrap Settings.get_storage_settings

-- `healthy` is the object storage's health check with the settings
unfoldable pub set_storage_settings :
    (StorageSettings → Exec (Unit {0})) → Option StorageSettings → Exec (Unit {0})
set_storage_settings healthy none = wrap (Settings.set_storage_settings none)
set_storage_settings healthy (some s) = do
  wrap (healthy s)
  wrap (Settings.set_storage_settings (some s))

-- ===== src/App/Progress.antt =====
-- How a device reports its progress: UpdateDeviceDeploymentStatus and recalcDeploymentStatus of
-- app/app.go.
pub mod Writes
mod Tests
pub mod Tally
pub mod Outcome
pub mod Moved
pub mod Accepted
use deployments.Shared.{ℕ, String, Bool, true, false, not, Option, none, some, List}
use deployments.Shared.Tests.{if◌then◌else◌}
use deployments.Model.Status
use deployments.Model.Status.{Status}
use deployments.Model.Deployment
use deployments.Model.Deployment.{Deployment}
use deployments.Model.DeviceDeployment.{DeviceDeployment, DeviceDeploymentState}
use deployments.Store.Errors.{
  Error, Result, ok, err, storage_not_found, not_found, deployment_aborted, device_decommissioned,
  nil_dereference,
}
use deployments.Store.World.{World}
use deployments.Store.Exec.{
  Exec, pure, raise, refuse_if, or_raise, wrap, logged, time_now, ◌>>=◌, ◌>>◌,
}
use deployments.Store.Mongo.{Mongo}
use deployments.Store.Devices
use deployments.Store.Deployments
use deployments.App.Reindex.{reindex_device, reindex_deployment}

-- the store's "not found" becomes the application's
not_found_of : Error → Error
not_found_of storage_not_found = not_found
not_found_of e = e

rename_result : {A : Type 0} → Result A × World → Result A × World
unfolding not_found_of
rename_result (ok a, w) = (ok a, w)
rename_result (err e, w) = (err (not_found_of e), w)

rename_not_found : {A : Type 0} → Exec A → Exec A
unfolding rename_result
rename_not_found m w = rename_result (m w)

pub finish_time_of : Status → Exec (Option ℕ)
finish_time_of s = if Status.is_finished s then (do now ← time_now; pure (some now)) else pure none

module _ (mongo : Mongo) where
  -- recalcDeploymentStatus; `none` is a nil deployment
  unfoldable pub recalc_deployment_status : Option Deployment → Exec (Unit {0})
  recalc_deployment_status none = raise nil_dereference
  recalc_deployment_status (some dep) = do
    let status = Deployment.get_status dep
    now ← time_now
    Deployments.set_deployment_status mongo dep.id status now

  -- what is done for a device that is no longer active; errors are only logged
  unfoldable pub settle_device : String → DeviceDeployment → Status → Exec (Unit {0})
  settle_device device_id dd status =
      if not (Status.active status)
      then (do
        logged (Devices.save_last_device_deployment_status mongo (record dd { status = status }))
        logged (reindex_device device_id)
        logged (reindex_deployment dd.device_id dd.deployment_id dd.id))
      else pure tt

  -- the two writes of UpdateDeviceDeploymentStatus: the device deployment, then the counters
  unfoldable pub move_device : String → String → DeviceDeploymentState → Exec (Unit {0})
  move_device deployment_id device_id state = do
    old ← Devices.update_device_deployment_status mongo device_id deployment_id state
    Deployments.update_stats_inc mongo deployment_id old state.status

  -- the deployment is read back, and its status follows from its counters
  unfoldable pub refresh_deployment : String → Exec (Unit {0})
  refresh_deployment deployment_id = do
    deployment ← wrap (Deployments.find_deployment_by_id mongo deployment_id)
    wrap (recalc_deployment_status deployment)

  unfoldable pub update_device_deployment_status :
      String → String → DeviceDeploymentState → Exec (Unit {0})
  unfolding finish_time_of rename_not_found
  update_device_deployment_status deployment_id device_id state = do
    finish_time ← finish_time_of state.status
    dd ← rename_not_found (Devices.get_device_deployment mongo deployment_id device_id false)
    refuse_if (Status.status_eq dd.status Status.aborted) deployment_aborted
    refuse_if (Status.status_eq dd.status Status.decommissioned) device_decommissioned
    if Status.status_eq state.status dd.status then pure tt else do
      move_device deployment_id device_id (record state { finish_time = finish_time })
      refresh_deployment deployment_id
      settle_device device_id dd state.status

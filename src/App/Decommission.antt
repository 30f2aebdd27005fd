-- ===== src/App/Decommission.antt =====
-- The end of a device's deployments: DecommissionDevice, AbortDeviceDeployments,
-- updateDeviceDeploymentsStatus and DeleteDeviceDeploymentsHistory of app/app.go.
use deployments.Shared.{
  ℕ, zero, suc, ◌+◌, String, false, not, Option, none, some, List, [], ◌∷◌, map,
}
use deployments.Shared.Tests.{if◌then◌else◌}
use deployments.Model.Status
use deployments.Model.Status.{Status}
use deployments.Model.Deployment.{Deployment}
use deployments.Model.DeviceDeployment.{DeviceDeployment}
use deployments.Store.Errors.{exhausted}
use deployments.Store.Exec.{Exec, pure, raise, wrap, logged, time_now, ◌>>=◌, ◌>>◌}
use deployments.Store.Mongo.{Mongo}
use deployments.Store.Devices
use deployments.Store.Deployments
use deployments.App.Reindex.{reindex_device, reindex_deployment, reindex_deployments}
use deployments.App.Progress.{update_device_deployment_status}
use deployments.App.Assignment.{
  page, is_nil, last_created, is_device_part_of_deployment, create_device_deployment_with_status,
}

module _ (mongo : Mongo) where
  -- The active device deployment gets the status; the result is when the last one was created.
  unfoldable pub close_oldest : String → Status → Option DeviceDeployment → Exec (Option ℕ)
  close_oldest device_id status (some dd) = do
    now ← time_now
    wrap (
        update_device_deployment_status mongo dd.deployment_id device_id
          (record { status = status; sub_state = ""; finish_time = some now }))
    pure dd.created
  close_oldest device_id status none = do
    latest ← wrap (Devices.find_latest_inactive_device_deployment mongo device_id)
    pure (last_created latest)

  -- the loop over one page: a device deployment in the status for each deployment of the device
  unfoldable pub close_each : String → Status → List Deployment → Exec (Unit {0})
  close_each device_id status [] = pure tt
  close_each device_id status (deployment ∷ rest) = do
    if is_device_part_of_deployment device_id deployment.device_list
        then (do
          created ← create_device_deployment_with_status mongo device_id deployment status
          if not (Status.active status)
              then logged
                  (reindex_deployment created.1.device_id created.1.deployment_id created.1.id)
              else pure tt)
        else pure tt
    close_each device_id status rest

  -- the loop over the pages; each page takes one unit of fuel
  unfoldable pub close_newer : ℕ → String → Status → Option ℕ → ℕ → Exec (Unit {0})
  close_newer zero device_id status latest skip = raise exhausted
  close_newer (suc fuel) device_id status latest skip = do
    deployments ← wrap (Deployments.find_newer_active_deployments mongo latest skip page)
    if is_nil deployments then pure tt else do
      close_each device_id status deployments
      close_newer fuel device_id status latest (skip + page)

  unfoldable pub update_device_deployments_status : ℕ → String → Status → Exec (Unit {0})
  update_device_deployments_status fuel device_id status = do
    oldest ← wrap (Devices.find_oldest_active_device_deployment mongo device_id)
    latest ← close_oldest device_id status oldest
    close_newer fuel device_id status latest 0
    logged (reindex_device device_id)

  unfoldable pub decommission_device : ℕ → String → Exec (Unit {0})
  decommission_device fuel device_id =
      update_device_deployments_status fuel device_id Status.decommissioned

  unfoldable pub abort_device_deployments : ℕ → String → Exec (Unit {0})
  abort_device_deployments fuel device_id =
      update_device_deployments_status fuel device_id Status.aborted

  unfoldable pub delete_device_deployments_history : String → Exec (Unit {0})
  delete_device_deployments_history device_id = do
    past ← Devices.get_device_deployments mongo 0 0 device_id (some false) false
    if is_nil past then pure tt else do
      Devices.delete_device_deployments_history mongo device_id
      reindex_deployments (map (λ d. (d.device_id, d.deployment_id, d.id)) past)

-- ===== src/App/Assignment.antt =====
-- Which deployment a device is offered: getDeploymentForDevice, getNewDeploymentForDevice,
-- createDeviceDeploymentWithStatus and what they call, of app/app.go.
pub mod Paging
pub mod Search
pub mod Total
pub mod Offers
pub mod Newest
pub mod Oldest
mod Tests
use deployments.Shared.{
  ℕ, zero, suc, ◌+◌, String, Bool, true, false, not, ◌||◌, Option, none, some, List, [], ◌∷◌, ◌==◌,
}
use deployments.Shared.Tests.{if◌then◌else◌}
use deployments.Model.Status
use deployments.Model.Status.{Status}
use deployments.Model.Stats
use deployments.Model.Deployment.{Deployment}
use deployments.Model.DeviceDeployment.{DeviceDeployment, new_device_deployment}
use deployments.Store.Errors.{
  Result, ok, err, storage_not_found, exhausted, no_deployment_for_device_deployment,
}
use deployments.Store.World.{World}
use deployments.Store.Exec.{
  Exec, pure, raise, refuse_if, or_raise, wrap, logged, time_now, new_uuid, ◌>>=◌, ◌>>◌,
}
use deployments.Store.Mongo.{Mongo}
use deployments.Store.Devices
use deployments.Store.Deployments
use deployments.Store.Insertion.{insert_device_deployment}
use deployments.App.Reindex.{reindex_device, reindex_deployment}
use deployments.App.Progress.{recalc_deployment_status}

abbrev pub page : ℕ
page = 100

unfoldable pub is_device_part_of_deployment : String → List String → Bool
is_device_part_of_deployment device_id [] = false
is_device_part_of_deployment device_id (id ∷ ids) =
    id == device_id || is_device_part_of_deployment device_id ids

-- the deployments are newer than this: a device that had none takes any, the zero time is 0
abbrev pub last_created : Option DeviceDeployment → Option ℕ
last_created none = some 0
last_created (some dd) = dd.created

abbrev pub is_nil : {A : Type 0} → List A → Bool
is_nil [] = true
is_nil (a ∷ rest) = false

abbrev pub or_else : {A : Type 0} → Option A → Exec (Option A) → Exec (Option A)
or_else (some a) m = pure (some a)
or_else none m = m

-- the status of what was read, and the null status if nothing was found
status_found : Result DeviceDeployment × World → Result Status × World
status_found (ok dd, w) = (ok dd.status, w)
status_found (err storage_not_found, w) = (ok Status.null, w)
status_found (err e, w) = (err e, w)

previous_status : Exec DeviceDeployment → Exec Status
unfolding status_found
previous_status m w = status_found (m w)

module _ (mongo : Mongo) where
  -- the deployment comes back with the count that is written to it
  unfoldable pub set_deployment_device_count_if_unset : Deployment → Exec Deployment
  set_deployment_device_count_if_unset deployment = elim deployment.device_count [
    | some n ↦ pure deployment
    | none ↦ (do
      device_count ← wrap (Deployments.device_count_by_deployment mongo deployment.id)
      wrap (Deployments.set_deployment_device_count mongo deployment.id device_count)
      pure (record deployment { device_count = some device_count }))
  ]

  -- The deployment comes back with what the code changes in it.
  unfoldable pub create_device_deployment_with_status :
      String → Deployment → Status → Exec (Deployment × DeviceDeployment)
  unfolding previous_status
  create_device_deployment_with_status device_id deployment status = do
    previous ← previous_status (Devices.get_device_deployment mongo deployment.id device_id true)
    now ← time_now
    uid ← new_uuid
    let dd : DeviceDeployment = record (new_device_deployment now uid device_id deployment.id) {
      status = status;
      active = Status.active status;
      created = deployment.created;
    }
    counted ← set_deployment_device_count_if_unset deployment
    insert_device_deployment mongo dd (Status.status_eq previous Status.null)
    Deployments.update_stats_inc mongo deployment.id previous status
    let counted' : Deployment = record counted { stats = Stats.inc counted.stats status }
    wrap (recalc_deployment_status mongo (some counted'))
    if not (Status.active status)
        then (do
          logged (reindex_device device_id)
          logged (reindex_deployment dd.device_id dd.deployment_id dd.id))
        else pure tt
    pure (counted', dd)

  -- the loop over one page: the first deployment that the device is part of
  unfoldable pub take_first :
      String → List Deployment → Exec (Option (Deployment × DeviceDeployment))
  take_first device_id [] = pure none
  take_first device_id (deployment ∷ rest) =
      if is_device_part_of_deployment device_id deployment.device_list
      then (do
        created ← create_device_deployment_with_status device_id deployment Status.pending
        pure (some created))
      else take_first device_id rest

  -- the loop over the pages; each page takes one unit of fuel
  unfoldable pub take_from_pages :
      ℕ → String → Option ℕ → ℕ → Exec (Option (Deployment × DeviceDeployment))
  take_from_pages zero device_id last skip = raise exhausted
  take_from_pages (suc fuel) device_id last skip = do
    deployments ← wrap (Deployments.find_newer_active_deployments mongo last skip page)
    if is_nil deployments then pure none else do
      taken ← take_first device_id deployments
      or_else taken (take_from_pages fuel device_id last (skip + page))

  unfoldable pub get_new_deployment_for_device :
      ℕ → String → Exec (Option (Deployment × DeviceDeployment))
  get_new_deployment_for_device fuel device_id = do
    latest ← wrap (Devices.find_latest_inactive_device_deployment mongo device_id)
    take_from_pages fuel device_id (last_created latest) 0

  unfoldable pub deployment_of : DeviceDeployment → Exec (Option (Deployment × DeviceDeployment))
  deployment_of dd = do
    found ← wrap (Deployments.find_deployment_by_id mongo dd.deployment_id)
    deployment ← or_raise no_deployment_for_device_deployment found
    pure (some (deployment, dd))

  -- the active device deployment goes on, or there is a new one
  unfoldable pub continue_oldest :
      ℕ → String → Option DeviceDeployment → Exec (Option (Deployment × DeviceDeployment))
  continue_oldest fuel device_id none = get_new_deployment_for_device fuel device_id
  continue_oldest fuel device_id (some dd) = deployment_of dd

  unfoldable pub get_deployment_for_device :
      ℕ → String → Exec (Option (Deployment × DeviceDeployment))
  get_deployment_for_device fuel device_id = do
    oldest ← wrap (Devices.find_oldest_active_device_deployment mongo device_id)
    continue_oldest fuel device_id oldest

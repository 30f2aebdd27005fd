-- ===== src/Store/Listing/Devices.antt =====
-- The lists of device deployments, and the counters of several deployments:
-- GetDeviceStatusesForDeployment, GetDevicesListForDeployment, GetDeviceDeploymentsForDevice and
-- FindDeploymentStatsByIDs of store/mongo/datastore_mongo.go.
use deployments.Shared.{ℕ, zero, suc, ◌+◌, ◌*◌, String, Bool, true, ◌&&◌, ◌||◌, List, map, ◌==◌}
use deployments.Shared.Tests.{if◌then◌else◌, ltb, nat_eq}
use deployments.Shared.Lists.{length, any}
use deployments.Shared.Int.{ℤ, pos, negsuc, pos_part}
use deployments.Model.Status
use deployments.Model.Status.{Status}
use deployments.Model.Stats.{Stats}
use deployments.Model.Deployment.{Deployment, is_empty}
use deployments.Model.DeviceDeployment.{DeviceDeployment}
use deployments.Model.Query.{ListQuery, ListQueryDeviceDeployments, status_filter}
use deployments.Store.Errors.{wrapped, storage_invalid_id, no_ids_given, invalid_status_query}
use deployments.Store.Exec.{Exec, pure, refuse_if, or_raise, attempt, give_back, query, ◌>>=◌, ◌>>◌}
use deployments.Store.Mongo.{Mongo, natural, ascending, descending}
use deployments.Store.Devices.{present, time_key}
use deployments.Store.Listing.{window, default_document_limit, devices_counted}

abbrev max_count_documents : ℕ
max_count_documents = 10000

module _ (mongo : Mongo) where
  -- no limit is a limit of 20
  abbrev limit_or_default : ℤ → ℕ
  limit_or_default (pos zero) = default_document_limit
  limit_or_default (pos (suc n)) = suc n
  limit_or_default (negsuc n) = default_document_limit

  abbrev is_of : String → (Status → Bool) → DeviceDeployment → Bool
  is_of deployment_id passes d = d.deployment_id == deployment_id && present d && passes d.status

  -- by device, or by identifier, or all of them; those that are deleted too
  abbrev is_asked : String → List String → (Status → Bool) → DeviceDeployment → Bool
  is_asked device_id ids passes d =
      (if is_empty device_id
        then nat_eq (length ids) 0 || any (λ id. id == d.id) ids
        else d.device_id == device_id)
      && passes d.status

  unfoldable pub get_device_statuses_for_deployment : String → Exec (List DeviceDeployment)
  get_device_statuses_for_deployment id =
      query (λ db. mongo.find DeviceDeployment (is_of id (λ s. true)) natural db.devices)

  -- The order within one status, by device, is left out.
  unfoldable pub get_devices_list_for_deployment : ListQuery → Exec (List DeviceDeployment × ℕ)
  get_devices_list_for_deployment q = do
    passes ← or_raise (wrapped invalid_status_query) (status_filter q.status)
    page ← query (λ db. window (pos_part q.skip) (limit_or_default q.limit) (
        mongo.find DeviceDeployment (is_of q.deployment_id passes)
          (ascending (λ d. Status.code d.status)) db.devices))
    counted ← attempt (
        query
          (λ db. mongo.count_documents DeviceDeployment (is_of q.deployment_id passes) db.devices))
    total ← give_back (devices_counted counted)
    pure (page, total)

  -- by time, and by status for one time: a status is below 65536
  abbrev newest_first : DeviceDeployment → ℕ
  newest_first d = time_key d.created * 65536 + Status.code d.status

  unfoldable pub get_device_deployments_for_device :
      ListQueryDeviceDeployments → Exec (List DeviceDeployment × ℕ)
  get_device_deployments_for_device q = do
    passes ← or_raise (wrapped invalid_status_query) (status_filter q.status)
    page ← query (λ db. window (pos_part q.skip) (limit_or_default q.limit) (
        mongo.find DeviceDeployment (is_asked q.device_id q.ids passes) (descending newest_first)
          db.devices))
    counted ← attempt (
        query (λ db.
          mongo.count_documents DeviceDeployment (is_asked q.device_id q.ids passes) db.devices))
    total ← give_back (devices_counted counted)
    pure (page, if ltb max_count_documents total then max_count_documents else total)

  -- FindDeploymentStatsByIDs: identifiers with their counters
  unfoldable pub find_deployment_stats_by_ids : List String → Exec (List (String × Stats))
  find_deployment_stats_by_ids ids = do
    refuse_if (nat_eq (length ids) 0) no_ids_given
    refuse_if (any is_empty ids) storage_invalid_id
    found ←
        query (λ db. mongo.find Deployment (λ d. any (λ id. id == d.id) ids) natural db.deployments)
    pure (map (λ d. (d.id, d.stats)) found)

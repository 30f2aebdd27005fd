-- ===== src/App/Listing.antt =====
-- The lists that the application layer gives to its callers: LookupDeployment, GetDeploymentsStats,
-- GetDeviceStatusesForDeployment, GetDevicesListForDeployment, GetDeviceDeploymentListForDevice and
-- ListImages of app/app.go.
use deployments.Shared.{ℕ, String, true, Option, none, some, List, [], ◌∷◌, map, ◌==◌}
use deployments.Shared.Tests.{if◌then◌else◌}
use deployments.Shared.Lists.{length}
use deployments.Shared.Int.{ℤ, pos}
use deployments.Model.Stats.{Stats}
use deployments.Model.Deployment.{Deployment, untyped}
use deployments.Model.DeviceDeployment.{DeviceDeployment}
use deployments.Model.Image.{Image}
use deployments.Model.Query.{
  Query, ReleaseOrImageFilter, ListQuery, ListQueryDeviceDeployments, any_status,
}
use deployments.Store.Errors.{deployment_not_found, model_internal}
use deployments.Store.Exec.{Exec, pure, or_raise, wrap, attempt, give_back, ◌>>=◌, ◌>>◌}
use deployments.Store.Mongo.{Mongo}
use deployments.Store.Deployments
use deployments.Store.Listing.{Texts, find}
use deployments.Store.Listing.Devices
use deployments.Store.Listing.Artifacts
use deployments.App.Releases.{map_error}
use deployments.App.Assignment.{set_deployment_device_count_if_unset}

-- DeviceDeploymentListItem
pub record DeviceDeploymentListItem : Type 0 where
  pub id : String
  pub deployment : Option Deployment
  pub device : DeviceDeployment

-- a map from identifiers, where a later deployment replaces an earlier one
unfoldable pub deployments_map : List Deployment → String → Option Deployment
deployments_map [] id = none
deployments_map (d ∷ ds) id = elim (deployments_map ds id) [
  | some later ↦ some later
  | none ↦ if d.id == id then some d else none
]

abbrev item : List Deployment → DeviceDeployment → DeviceDeploymentListItem
item ds d = record { id = d.id; deployment = deployments_map ds d.deployment_id; device = d }

-- a list that the driver leaves at nil is one that is not there
abbrev nonempty : {A : Type 0} → List A → Option (List A)
nonempty [] = none
nonempty (x ∷ xs) = some (x ∷ xs)

module _ (mongo : Mongo) where
  unfoldable pub set_device_counts : List Deployment → Exec (List Deployment)
  set_device_counts [] = pure []
  set_device_counts (d ∷ ds) = do
    d' ← set_deployment_device_count_if_unset mongo d
    rest ← set_device_counts ds
    pure (d' ∷ rest)

  abbrev pub counted : List Deployment × ℤ → Exec (List Deployment × ℤ)
  counted ([], total) = pure ([], pos 0)
  counted (d ∷ ds, total) = do list ← set_device_counts (d ∷ ds); pure (list, total)

  unfoldable pub lookup_deployment : Texts → Query → Exec (List Deployment × ℤ)
  lookup_deployment texts q = do found ← wrap (find mongo texts q); counted found

  unfoldable pub get_deployments_stats : List String → Exec (List (String × Stats))
  get_deployments_stats ids = do
    found ← wrap (Devices.find_deployment_stats_by_ids mongo ids)
    or_raise deployment_not_found (nonempty found)

  -- the deployment of a list, which has to be there
  unfoldable pub listed_deployment : String → Exec Deployment
  listed_deployment id = do
    r ← attempt (Deployments.find_deployment_by_id mongo id)
    found ← give_back (map_error (λ e. model_internal) r)
    or_raise deployment_not_found found

  unfoldable pub get_device_statuses_for_deployment : String → Exec (List DeviceDeployment)
  unfolding listed_deployment
  get_device_statuses_for_deployment id = do
    listed_deployment id
    r ← attempt (Devices.get_device_statuses_for_deployment mongo id)
    give_back (map_error (λ e. model_internal) r)

  unfoldable pub get_devices_list_for_deployment : ListQuery → Exec (List DeviceDeployment × ℕ)
  unfolding listed_deployment
  get_devices_list_for_deployment q = do
    listed_deployment q.deployment_id
    r ← attempt (Devices.get_devices_list_for_deployment mongo q)
    give_back (map_error (λ e. model_internal) r)

  -- the query for the deployments of a list of device deployments
  abbrev of_list : List DeviceDeployment → Query
  of_list ds = record {
    ids = map (λ d. d.deployment_id) ds;
    search_text = "";
    type = untyped;
    status = any_status;
    limit = pos (length ds);
    skip = pos 0;
    created_after = none;
    created_before = none;
    sort = "";
    disable_count = true;
  }

  unfoldable pub get_device_deployment_list_for_device :
      Texts → ListQueryDeviceDeployments → Exec (List DeviceDeploymentListItem × ℕ)
  unfolding deployments_map
  get_device_deployment_list_for_device texts q = do
    found ← wrap (Devices.get_device_deployments_for_device mongo q)
    listed ← wrap (find mongo texts (of_list found.0))
    pure (map (item listed.0) found.0, found.1)

  abbrev listed_images : List Image × ℕ → List Image × ℕ
  listed_images ([], total) = ([], 0)
  listed_images found = found

  unfoldable pub list_images : Texts → ReleaseOrImageFilter → Exec (List Image × ℕ)
  list_images texts f = do
    found ← wrap (Artifacts.list_images mongo texts f)
    pure (listed_images found)

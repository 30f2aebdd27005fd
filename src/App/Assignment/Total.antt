-- ===== src/App/Assignment/Total.antt =====
-- The end of the search in a device's request for a deployment (getDeploymentForDevice of
-- app/app.go).
use deployments.Shared.{ℕ, ◌<◌, String, ◌≢◌, refl, false, Option, none, some, arith}
use deployments.Shared.Lists.{length}
use deployments.Model.DeviceDeployment.{DeviceDeployment}
use deployments.Store.Errors.{Result, ok, err, exhausted}
use deployments.Store.World.{World, Database}
use deployments.Store.Exec.{wrap}
use deployments.Store.Exec.Keeps.{Keeps, keeps_rules}
use deployments.Store.Exec.Raises.{Finishes, Finished, finishes_rules}
use deployments.Store.Exec.Returns.{Finished-read}
use deployments.Store.Mongo.{Mongo}
use deployments.Store.Devices
use deployments.App.Assignment.{
  last_created, deployment_of, continue_oldest, take_from_pages, get_new_deployment_for_device,
  get_deployment_for_device,
}
use deployments.App.Assignment.Search.{take_from_pages-Finished}

module _ (mongo : Mongo) (P : Database → Type 0) where
  latest-Keeps :
      (device_id : String)
      → Keeps false P (wrap (Devices.find_latest_inactive_device_deployment mongo device_id))
  unfolding Devices.find_latest_inactive_device_deployment Devices.find_device
  latest-Keeps device_id = search keeps_rules

  oldest-Keeps :
      (device_id : String)
      → Keeps false P (wrap (Devices.find_oldest_active_device_deployment mongo device_id))
  unfolding Devices.find_oldest_active_device_deployment Devices.find_device
  oldest-Keeps device_id = search keeps_rules

not_exhausted : {A : Type 0} (r : Result A) → Finished r → r ≢ err exhausted
not_exhausted (ok a) h e = cc
not_exhausted (err exhausted) h e = cc
not_exhausted (err _) h e = cc

module _ (mongo : Mongo) (fuel : ℕ) (device_id : String) where
  search-Finished :
      (w : World)
      → length w.deployments < fuel
      → Finished (get_new_deployment_for_device mongo fuel device_id w).0
  unfolding get_new_deployment_for_device
  search-Finished w enough =
      Finished-read (λ latest. take_from_pages mongo fuel device_id (last_created latest) 0) w.db
        (wrap (Devices.find_latest_inactive_device_deployment mongo device_id)) w refl
        (search finishes_rules) (latest-Keeps mongo _ device_id)
        (λ latest w' same.
          take_from_pages-Finished mongo fuel device_id (last_created latest) 0 w'
            (omega (arith, enough)) (rw same (omega (arith, enough))))

  deployment_of-Finishes : (dd : DeviceDeployment) → Finishes (deployment_of mongo dd)
  unfolding deployment_of
  deployment_of-Finishes dd = search finishes_rules

  after_oldest :
      (oldest : Option DeviceDeployment) (w : World)
      → length w.deployments < fuel
      → Finished (continue_oldest mongo fuel device_id oldest w).0
  unfolding continue_oldest
  after_oldest none w enough = search-Finished w enough
  after_oldest (some dd) w enough = (deployment_of-Finishes dd).at w

  -- With more fuel than there are deployments, the request for a deployment does not run out of fuel,
  -- whatever calls of the database fail.
  pub get_deployment_ends :
      (w : World)
      → length w.deployments < fuel
      → (get_deployment_for_device mongo fuel device_id w).0 ≢ err exhausted
  unfolding get_deployment_for_device
  get_deployment_ends w enough = not_exhausted _ (
      Finished-read _ w.db (wrap (Devices.find_oldest_active_device_deployment mongo device_id)) w
        refl (search finishes_rules) (oldest-Keeps mongo _ device_id)
        (λ oldest w' same. after_oldest oldest w' (rw same enough)))

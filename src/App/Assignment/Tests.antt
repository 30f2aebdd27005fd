-- ===== src/App/Assignment/Tests.antt =====
-- Requests for a deployment in a small world (getDeploymentForDevice of app/app.go).
use deployments.Shared.{◌≤◌, ◌≡◌, ◌≢◌, refl, true, false, ◌&&◌, some, [], ◌∷◌, arith}
use deployments.Shared.Int.{pos, ◌+ℤ◌}
use deployments.Shared.Lists.{All, any}
use deployments.Model.Status
use deployments.Model.Stats
use deployments.Model.Deployment
use deployments.Model.Deployment.{Deployment}
use deployments.Model.DeviceDeployment
use deployments.Model.DeviceDeployment.{DeviceDeployment}
use deployments.Store.Errors.{ok, err, exhausted}
use deployments.Store.Exec
use deployments.Store.Mongo
use deployments.Store.Mongo.Reference.{reference}
use deployments.Store.Devices
use deployments.Store.Devices.{created_key}
use deployments.Store.Deployments
use deployments.Store.Deployments.{after}
use deployments.Store.Insertion
use deployments.App.Samples.{world, deployment, device_deployment}
use deployments.App.Progress
use deployments.App.Assignment
use deployments.App.Assignment.{last_created}
use deployments.App.Assignment.Total.{get_deployment_ends}
use deployments.App.Assignment.Offers.{is_part, IsFresh}
use deployments.App.Assignment.Newest.{had, latest, new_deployment-newer, no_deployment-none_newer}
use deployments.App.Assignment.Oldest.{has_active, get_deployment-oldest}

abbrev offered : Deployment
offered = record deployment { stats = ("aborted", pos 1) ∷ ("pending", pos 2) ∷ [] }

abbrev created : DeviceDeployment
created = device_deployment "uuid" "one" Status.pending

get_deployment_ends_example :
    (Assignment.get_deployment_for_device reference 2 "one" world).0 ≢ err exhausted
get_deployment_ends_example = get_deployment_ends reference 2 "one" world (omega arith)

new_deployment-newer_example :
    (is_part "one" offered ≡ true)
    × (offered.active ≡ true)
    × All (λ d. had "one" d ≡ true → after offered.created d.created ≡ true) world.devices
    × IsFresh "one" Status.pending offered created
unfolding Assignment.get_new_deployment_for_device Assignment.take_from_pages Assignment.take_first
    Assignment.create_device_deployment_with_status Assignment.previous_status
    Assignment.is_device_part_of_deployment Assignment.set_deployment_device_count_if_unset
    Devices.find_latest_inactive_device_deployment Devices.get_device_deployment
    Devices.insert_device Insertion.insert_device_deployment
    Deployments.find_newer_active_deployments Deployments.update_stats_inc
    Deployments.set_deployment_status Progress.recalc_deployment_status
    DeviceDeployment.new_device_deployment Mongo.find_one Exec.◌>>=◌ Status.active
    Status.is_finished Status.marshal_text Status.status_eq Status.to_string Deployment.get_status
    Stats.inc Stats.get Stats.get_key Stats.set_key ◌+ℤ◌ any
new_deployment-newer_example =
    new_deployment-newer reference 2 "one" world offered created refl
      ((λ h. refl), ((λ h. refl), tt))

no_deployment-none_newer_example :
    All
      (λ d.
        ((d.active && after d.created (last_created (latest reference "nine" world.db)))
          && is_part "nine" d)
        ≡ false)
      world.deployments
unfolding Assignment.get_new_deployment_for_device Assignment.take_from_pages Assignment.take_first
    Assignment.is_device_part_of_deployment Devices.find_latest_inactive_device_deployment
    Deployments.find_newer_active_deployments Mongo.find_one Exec.◌>>=◌ Status.active
no_deployment-none_newer_example = no_deployment-none_newer reference 2 "nine" world refl

get_deployment-oldest_example :
    (dep : Deployment) × (dd : DeviceDeployment) × (Assignment.get_deployment_for_device reference 2
        "one" world
      ≡ (ok (some (dep, dd)), world))
    × (has_active "one" dd ≡ true)
    × (dep.id ≡ dd.deployment_id)
    × All (λ d. has_active "one" d ≡ true → created_key dd ≤ created_key d) world.devices
unfolding any Status.active
get_deployment-oldest_example =
    get_deployment-oldest reference 2 "one" world refl refl refl
      ((λ h. (refl, refl)), ((λ h. (refl, refl)), tt))

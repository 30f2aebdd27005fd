-- ===== src/App/Progress/Tests.antt =====
-- Progress reports in a small world (UpdateDeviceDeploymentStatus of app/app.go).
use deployments.Shared.{◌≡◌, refl, [], ◌∷◌, map}
use deployments.Shared.Int.{pos, ◌+ℤ◌}
use deployments.Shared.Lists.{count, any}
use deployments.Model.Status
use deployments.Model.Stats
use deployments.Model.Deployment
use deployments.Model.DeviceDeployment
use deployments.Model.DeviceDeployment.{DeviceDeployment}
use deployments.Store.Errors.{ok, err, not_found, deployment_aborted}
use deployments.Store.Exec
use deployments.Store.Mongo
use deployments.Store.Mongo.Reference.{reference}
use deployments.Store.Devices
use deployments.Store.Deployments
use deployments.Store.Ledger.{in_status, IsAccurate, UniqueIds}
use deployments.App.Samples.{world, report, counters, database}
use deployments.App.Reindex
use deployments.App.Progress.{
  move_device, refresh_deployment, settle_device, update_device_deployment_status,
  recalc_deployment_status,
}
use deployments.App.Progress.Tally.{report-IsAccurate}
use deployments.App.Progress.Outcome.{verdict, report_not_found, report_settled}
use deployments.App.Progress.Accepted.{OneMoved, report_accepted}

report_runs :
    let done =
      update_device_deployment_status reference "dep" "one" (report Status.success) world in
    (done.0 ≡ ok tt)
    × (map (λ (d : DeviceDeployment). d.status) done.1.devices
        ≡ Status.success ∷ Status.aborted ∷ [])
    × (map (λ (d : Deployment.Deployment). d.status) done.1.deployments ≡ Deployment.finished ∷ [])
unfolding update_device_deployment_status recalc_deployment_status move_device refresh_deployment
    settle_device Reindex.reindex_device Reindex.reindex_deployment
    Devices.update_device_deployment_status Devices.get_device_deployment
    Devices.save_last_device_deployment_status Deployments.update_stats_inc
    Deployments.find_deployment_by_id Deployments.set_deployment_status Mongo.find_one Exec.◌>>=◌
    Status.active Status.is_finished Status.marshal_text Status.to_string Deployment.get_status
    Stats.get Stats.get_key Stats.set_key DeviceDeployment.validate_state ◌+ℤ◌
report_runs = (refl, refl, refl)

counted :
    (s : Status.Status) → Stats.get counters s ≡ pos (count (in_status "dep" s) database.devices)
unfolding Stats.get Stats.get_key Status.to_string count Status.status_eq
counted Status.null = refl
counted _ = refl

world-IsAccurate : IsAccurate world.db
world-IsAccurate = ((λ s named. counted s), tt)

report-IsAccurate_example :
    let done =
      update_device_deployment_status reference "dep" "one" (report Status.success) world in
    IsAccurate done.1.db × UniqueIds done.1.deployments
report-IsAccurate_example =
    report-IsAccurate reference "dep" "one" (report Status.success) world refl world-IsAccurate
      (tt, tt)

report_accepted_example :
    let done =
      update_device_deployment_status reference "dep" "one" (report Status.success) world in
    (done.0 ≡ ok tt) × OneMoved "dep" Status.pending Status.success world.devices done.1.devices
unfolding any verdict Status.status_eq
report_accepted_example =
    report_accepted reference "dep" "one" (report Status.success) Status.pending world refl refl
      (λ e. cc) refl refl ((λ h. refl), ((λ h. absurd (cc)), tt)) refl

report_settled_example :
    let done =
      update_device_deployment_status reference "dep" "two" (report Status.success) world in
    (done.0 ≡ err deployment_aborted) × (done.1.db ≡ world.db)
unfolding any verdict Status.status_eq
report_settled_example =
    report_settled reference "dep" "two" (report Status.success) world Status.aborted
      (err deployment_aborted) refl refl ((λ h. absurd (cc)), ((λ h. refl), tt)) refl

report_not_found_example :
    let done =
      update_device_deployment_status reference "other" "two" (report Status.success) world in
    (done.0 ≡ err not_found) × (done.1.db ≡ world.db)
unfolding any
report_not_found_example =
    report_not_found reference "other" "two" (report Status.success) world refl refl

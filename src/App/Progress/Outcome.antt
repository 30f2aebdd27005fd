-- ===== src/App/Progress/Outcome.antt =====
-- What a device's progress report does, on each branch (UpdateDeviceDeploymentStatus of app/app.go).
use deployments.Shared.{
  ℕ, suc, String, ◌≡◌, refl, inl, inr, Bool, true, false, Option, none, some, [], arith,
}
use deployments.Shared.Tests.{if◌then◌else◌, Bool-cases}
use deployments.Shared.Lists.{All, any}
use deployments.Model.Status
use deployments.Model.Status.{Status, null, aborted, decommissioned, status_eq}
use deployments.Model.DeviceDeployment.{DeviceDeploymentState}
use deployments.Store.Errors.{Result, ok, err, not_found, deployment_aborted, device_decommissioned}
use deployments.Store.World.{World, Database}
use deployments.Store.Exec.{◌>>=◌}
use deployments.Store.Mongo.{Mongo}
use deployments.Store.Devices.{of_device}
use deployments.Store.Live.{get_device_deployment-some, get_device_deployment-none}
use deployments.App.Progress.{
  finish_time_of, not_found_of, rename_result, rename_not_found, update_device_deployment_status,
}

-- the live device deployments of the device in the deployment all have the status
abbrev pub AllLive : String → String → Status → Database → Type 0
AllLive device_id id s db = All (λ d. of_device device_id id d ≡ true → d.status ≡ s) db.devices

-- there is a live device deployment of the device in the deployment
abbrev pub has_live : String → String → Database → Bool
has_live device_id id db = any (of_device device_id id) db.devices

pub finish_time-reads :
    (s : Status) (w : World)
    → (ft : Option ℕ) × (n : ℕ) × (finish_time_of s w ≡ (ok ft, record w { reads = n }))
unfolding finish_time_of ◌>>=◌
finish_time-reads s w = elim (Bool-cases (Status.is_finished s)) [
  | inl finished ↦ (some (w.times w.reads), suc w.reads, rw finished)
  | inr unfinished ↦ (none, w.reads, rw unfinished)
]

-- what a report is answered by the device's current status alone
unfoldable pub verdict : Status → Status → Option (Result (Unit {0}))
verdict current reported =
    if status_eq current aborted
    then some (err deployment_aborted)
    else if status_eq current decommissioned
    then some (err device_decommissioned)
    else if status_eq reported current
    then some (ok tt)
    else none

module _ (mongo : Mongo) (id device_id : String) (state : DeviceDeploymentState) (w : World) where
  -- While the database answers, a report for a device that has no live device deployment in the
  -- deployment is answered "not found", and the database stays as it was.
  pub report_not_found :
      w.faults ≡ []
      → has_live device_id id w.db ≡ false
      → let r = update_device_deployment_status mongo id device_id state w in
        (r.0 ≡ err not_found) × (r.1.db ≡ w.db)
  unfolding update_device_deployment_status rename_not_found rename_result not_found_of ◌>>=◌
  report_not_found calm gone =
      let (ft, n, read) = finish_time-reads state.status w in
      let missing =
        get_device_deployment-none mongo id device_id (record w { reads = n }) calm gone in
      rw (read, missing) (refl, refl)

  -- While the database answers, a report for a device whose live device deployments in the deployment
  -- all have one status: if that is aborted or decommissioned, the report is refused with the error
  -- that says so, whatever it reports, and a report of the status that the device has is answered
  -- with success; the database stays as it was.
  pub report_settled :
      (current : Status) (r : Result (Unit {0}))
      → w.faults ≡ []
      → has_live device_id id w.db ≡ true
      → AllLive device_id id current w.db
      → verdict current state.status ≡ some r
      → let done = update_device_deployment_status mongo id device_id state w in
        (done.0 ≡ r) × (done.1.db ≡ w.db)
  unfolding update_device_deployment_status rename_not_found rename_result verdict ◌>>=◌
  report_settled current r calm live all settled =
      let (ft, n, read) = finish_time-reads state.status w in
      let (dd, got, passes, among) =
        get_device_deployment-some mongo id device_id (record w { reads = n }) calm live in
      let current_is : dd.status ≡ current =
        among (λ d. of_device device_id id d ≡ true → d.status ≡ current) all passes in
      rw (read, got, current_is) (ground arith)

-- ===== src/App/Progress/Accepted.antt =====
-- A progress report that is accepted (UpdateDeviceDeploymentStatus of app/app.go).
use deployments.Shared.{
  ◌+◌, String, ◌≡◌, ◌≢◌, refl, sym, ◌∙◌, true, false, ◌||◌, none, List, [], ◌==◌, eq_iff, arith,
}
use mathlib.Core.Path.{subst}
use deployments.Shared.Tests.{if◌then◌else◌}
use deployments.Shared.Lists.{any, count}
use deployments.Model.Status.{Status, null, status_eq}
use deployments.Model.Status.Laws.{status_eq_iff}
use deployments.Model.Deployment.{Deployment, is_empty}
use deployments.Model.DeviceDeployment.{DeviceDeployment, DeviceDeploymentState, validate_state}
use deployments.Store.Errors.{ok}
use deployments.Store.World.{World}
use deployments.Store.Exec.{◌>>=◌}
use deployments.Store.Mongo.{Mongo, Replaced}
use deployments.Store.Mongo.Laws.{count-Replaced, Replaced-passes}
use deployments.Store.Devices.{of_device, with_state}
use deployments.Store.Ledger.{in_status}
use deployments.Store.Live.{get_device_deployment-some}
use deployments.App.Progress.{rename_result, rename_not_found, update_device_deployment_status}
use deployments.App.Progress.Outcome.{AllLive, has_live, verdict, finish_time-reads}
use deployments.App.Progress.Moved.{
  move_device-ok, refresh_deployment-ok, settle-ok, settle-devices,
}

-- one device deployment of the deployment more has the one status, and one less the other; the
-- numbers of all others are the same
abbrev pub OneMoved :
    String → Status → Status → List DeviceDeployment → List DeviceDeployment → Type 0
OneMoved id from to before after =
    (other : String) (s : Status)
    → count (in_status other s) after
        + (if other == id then if status_eq s from then 1 else 0 else 0)
      ≡ count (in_status other s) before
        + (if other == id then if status_eq s to then 1 else 0 else 0)

OneMoved-Replaced :
    (device_id id : String) (state : DeviceDeploymentState) (old : DeviceDeployment)
    (ds ds' : List DeviceDeployment)
    → Replaced (of_device device_id id) (with_state state) old ds ds'
    → OneMoved id old.status state.status ds ds'
OneMoved-Replaced device_id id state old ds ds' h other s = ground (
  arith,
  count-Replaced (of_device device_id id) (with_state state) old ds ds' (in_status other s) h,
  Replaced-passes (of_device device_id id) (with_state state) old ds ds' h,
  eq_iff old.deployment_id id,
  eq_iff old.deployment_id other,
  eq_iff other id,
)

verdict-none :
    (current reported : Status)
    → verdict current reported ≡ none
    → (status_eq current Status.aborted ≡ false)
      × (status_eq current Status.decommissioned ≡ false)
      × (status_eq reported current ≡ false)
unfolding verdict
verdict-none current reported h = ground arith

-- A device whose live device deployments in a deployment have one status, which is neither aborted
-- nor decommissioned, reports another status, not the zero value, of a deployment that is there,
-- while the database answers. The report is answered with success; one device deployment of that
-- deployment goes from the old to the reported status, and the numbers of device deployments in each
-- status of each deployment change by just that.
pub report_accepted :
    (mongo : Mongo) (id device_id : String) (state : DeviceDeploymentState) (current : Status)
    (w : World)
    → w.faults ≡ []
    → (is_empty device_id || is_empty id) ≡ false
    → state.status ≢ null
    → any (λ (d : Deployment). d.id == id) w.deployments ≡ true
    → has_live device_id id w.db ≡ true
    → AllLive device_id id current w.db
    → verdict current state.status ≡ none
    → let done = update_device_deployment_status mongo id device_id state w in
      (done.0 ≡ ok tt) × OneMoved id current state.status w.devices done.1.devices
unfolding update_device_deployment_status rename_not_found rename_result validate_state ◌>>=◌
report_accepted mongo id device_id state current w calm named valid there live all open_verdict =
    let (ft, n, read) = finish_time-reads state.status w in
    let (not_aborted, not_decommissioned, other) = verdict-none current state.status open_verdict in
    let w0 : World = record w { reads = n } in
    let (dd, got, passes, among) = get_device_deployment-some mongo id device_id w0 calm live in
    let current_is : dd.status ≡ current =
      among (λ d. of_device device_id id d ≡ true → d.status ≡ current) all passes in
    let state' : DeviceDeploymentState = record state { finish_time = ft } in
    let (old, w1, was, replaced, moved, calm1, there1) =
      move_device-ok mongo id device_id state' current w0 calm named
        (ground (arith, status_eq_iff state.status null)) there live all in
    let (w2, refreshed, same2) = refresh_deployment-ok mongo id w1 calm1 (ground arith) there1 in
    let settled =
      (settle-devices mongo w2.devices device_id dd state.status).at w2
        (record { answers = tt; holds = refl }) in
    rw (read, got, current_is, not_aborted, not_decommissioned, other, moved, refreshed)
      (
        settle-ok mongo device_id dd state.status w2,
        subst (OneMoved id current state.status w.devices) (sym (settled.holds ∙ same2)) (
            subst (λ from. OneMoved id from state.status w.devices w1.devices) was
              (OneMoved-Replaced device_id id state' old w.devices w1.devices replaced)),
      )

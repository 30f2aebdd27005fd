-- ===== src/Http/Devices/Conflicts.antt =====
-- What a device is told about the report of its status (PutDeploymentStatusForDevice of
-- api/http/api_deployments.go).
use deployments.Shared.{ℕ, String, ◌≡◌, refl, true, false, some, none, List, [], arith}
use deployments.Model.Status.{Status}
use deployments.Model.DeviceDeployment.{DeviceDeploymentState}
use deployments.Store.Errors.{Result, ok, err, deployment_aborted, device_decommissioned}
use deployments.Store.World.{World}
use deployments.Store.Exec.{Exec, pure, attempt, give_back, ◌>>=◌}
use deployments.Store.Mongo.{Mongo}
use deployments.App.Progress.{update_device_deployment_status}
use deployments.App.Progress.Outcome.{AllLive, has_live, verdict, report_not_found, report_settled}
use deployments.Http.Request.{Request, Identity}
use deployments.Http.View.{
  Reply, render_error, render_error_not_found, http_status, reply, render_empty_success_response,
}
use deployments.Http.Calls.{call, is_panic}
use deployments.Http.Devices.{put_deployment_status_for_device, updated_reply}

-- the code for a report that the status of the device settles
unfoldable pub settled_code : Result (Unit {0}) → ℕ
settled_code (ok done) = 204
settled_code (err e) = 409

abbrev pub reported : Status → String → DeviceDeploymentState
reported s sub_state = record { status = s; sub_state = sub_state; finish_time = none }

-- the reply is one with this code, and the database is as it was
abbrev pub Answered : ℕ → World → Result (List (Reply (Unit {0}))) × World → Type 0
Answered code w done =
    ((replies : List (Reply (Unit {0}))) × (done.0 ≡ ok replies) × (http_status replies ≡ code))
    × (done.1.db ≡ w.db)

-- the three answers of a status that settles a report
data Settled : Result (Unit {0}) → Type 0 where
  done : Settled (ok tt)
  aborted : Settled (err deployment_aborted)
  decommissioned : Settled (err device_decommissioned)

verdict-Settled :
    (current s : Status) (r : Result (Unit {0})) → verdict current s ≡ some r → Settled r
unfolding verdict
verdict-Settled current s r h = ground (arith, done, aborted, decommissioned)

Settled-Answered :
    (r : Result (Unit {0}))
    → Settled r
    → (m : Exec (Unit {0})) (w : World) → (m w).0 ≡ r
    → (m w).1.db ≡ w.db
    → Answered (settled_code r) w ((do x ← call m; reply (updated_reply x)) w)
unfolding call attempt give_back pure http_status is_panic settled_code render_error
    render_empty_success_response ◌>>=◌
Settled-Answered _ done m w e same = rw e ((_, refl, refl), same)
Settled-Answered _ aborted m w e same = rw e ((_, refl, refl), same)
Settled-Answered _ decommissioned m w e same = rw e ((_, refl, refl), same)

module _ (mongo : Mongo) (request : Request) (idata : Identity) (s : Status) (sub_state : String)
    (w : World) where
  -- While the database answers, a report from a device that has no part in the deployment is answered
  -- that it is not found, and the database stays as it was.
  put_status-not_found :
      request.identity ≡ some idata
      → w.faults ≡ []
      → has_live idata.subject (request.param "id") w.db ≡ false
      → Answered 404 w (put_deployment_status_for_device mongo request (some (s, sub_state)) w)
  unfolding put_deployment_status_for_device call attempt give_back pure http_status is_panic
      render_error_not_found render_error ◌>>=◌
  put_status-not_found known calm gone =
      let (e, same) =
        report_not_found mongo (request.param "id") idata.subject (reported s sub_state) w calm
          gone in
      rw (known, e) ((_, refl, refl), same)

  -- While the database answers, a report from a device whose live device deployments in the
  -- deployment all have one status is answered as a conflict if that is aborted or decommissioned,
  -- and with success if it is the status that the report gives; in both cases the database stays as
  -- it was.
  pub put_status-settled :
      (current : Status) (r : Result (Unit {0}))
      → request.identity ≡ some idata
      → w.faults ≡ []
      → has_live idata.subject (request.param "id") w.db ≡ true
      → AllLive idata.subject (request.param "id") current w.db
      → verdict current s ≡ some r
      → Answered
          (settled_code r)
          w
          (put_deployment_status_for_device mongo request (some (s, sub_state)) w)
  unfolding put_deployment_status_for_device
  put_status-settled current r known calm live all settled =
      let (e, same) =
        report_settled mongo (request.param "id") idata.subject (reported s sub_state) w current r
          calm live all settled in
      rw known (
        Settled-Answered r (verdict-Settled current s r settled)
          (update_device_deployment_status mongo (request.param "id") idata.subject
            (reported s sub_state))
          w e same)

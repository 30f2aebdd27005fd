-- ===== src/App/Instructions/Refusal.antt =====
-- A device that changes its request (saveDeviceDeploymentRequest of app/app.go).
use mathlib.Core.Path.{subst}
use deployments.Shared.{
  String, ◌≡◌, refl, sym, ap, ◌∙◌, inl, inr, Bool, true, false, ◌||◌, Option, none, some, [], ◌==◌,
}
use deployments.Shared.Tests.{Option-cases}
use deployments.Shared.Lists.{any}
use deployments.Model.Status.{Status}
use deployments.Model.Deployment.{Deployment, is_empty}
use deployments.Model.DeviceDeployment.{DeviceDeployment, DeviceDeploymentState}
use deployments.Model.Request.{DeploymentNextRequest}
use deployments.Store.Errors.{Error, Result, ok, err, wrapped, conflicting_request_data}
use deployments.Store.World.{World, Database}
use deployments.Store.Exec.{Exec, raise, wrap_result, continue, logged, ◌>>=◌, ◌>>◌}
use deployments.Store.Exec.Keeps.{Keeps, keeps_rules}
use deployments.Store.Mongo.{Mongo}
use deployments.App.Reindex.{
  reindex_device, reindex_deployment, reindex_device-Keeps, reindex_deployment-Keeps,
}
use deployments.App.Progress.{update_device_deployment_status}
use deployments.App.Progress.Outcome.{AllLive, has_live, verdict, report_settled}
use deployments.App.Progress.Accepted.{OneMoved, report_accepted}
use deployments.App.Instructions.{
  check_request, save_device_deployment_request, close_device_deployment,
}

-- what the service reports when it fails a device deployment
abbrev pub failed : DeviceDeploymentState
failed = record { status = Status.failure; sub_state = ""; finish_time = none }

-- How a request that conflicts ends, by what the device's status makes of the report of the failure:
-- it is taken, or the status is the failure already, or the report is refused.
abbrev pub Refused :
    String → Status → Database → Option (Result (Unit {0})) → Result (Unit {0}) × World → Type 0
Refused id current before none (r, after) =
    (r ≡ err conflicting_request_data)
    × OneMoved id current Status.failure before.devices after.devices
Refused id current before (some (ok done)) (r, after) =
    (r ≡ err conflicting_request_data) × (after.db ≡ before)
Refused id current before (some (err e)) (r, after) = (r ≡ err (wrapped e)) × (after.db ≡ before)

submitted : DeviceDeployment → Exec (Unit {0})
submitted dd =
    logged (reindex_device dd.device_id)
    >> logged (reindex_deployment dd.device_id dd.deployment_id dd.id)

submitted-Keeps : (dd : DeviceDeployment) (db : Database) → Keeps false (λ d. d ≡ db) (submitted dd)
unfolding submitted
submitted-Keeps dd db = search (keeps_rules, reindex_device-Keeps, reindex_deployment-Keeps)

-- what follows the report
abbrev after_report : DeviceDeployment → Result (Unit {0}) × World → Result (Unit {0}) × World
after_report dd r =
    continue (λ x. raise conflicting_request_data) (continue (λ x. submitted dd) (wrap_result r))

after_report-ok :
    (dd : DeviceDeployment) (r : Result (Unit {0}) × World)
    → r.0 ≡ ok tt
    → ((after_report dd r).0 ≡ err conflicting_request_data) × ((after_report dd r).1.db ≡ r.1.db)
unfolding raise submitted ◌>>=◌
after_report-ok dd (r, w) e =
    rw e (refl, ((submitted-Keeps dd w.db).at w (record { answers = tt; holds = refl })).holds)

after_report-err :
    (dd : DeviceDeployment) (r : Result (Unit {0}) × World) (e : Error)
    → r.0 ≡ err e
    → ((after_report dd r).0 ≡ err (wrapped e)) × ((after_report dd r).1.db ≡ r.1.db)
after_report-err dd (r, w) e h = rw h (refl, refl)

module _ (mongo : Mongo) (device_id : String) (dd : DeviceDeployment) (current : Status)
    (w : World) where
  abbrev closing : Result (Unit {0}) × World
  closing = update_device_deployment_status mongo dd.deployment_id device_id failed w

  after_settled :
      (r : Result (Unit {0}))
      → closing.0 ≡ r
      → closing.1.db ≡ w.db
      → Refused dd.deployment_id current w.db (some r) (after_report dd closing)
  after_settled (ok done) e same =
      let (refused, kept) = after_report-ok dd closing e in (refused, kept ∙ same)
  after_settled (err x) e same =
      let (refused, kept) = after_report-err dd closing x e in (refused, kept ∙ same)

  report-Refused :
      w.faults ≡ []
      → (is_empty device_id || is_empty dd.deployment_id) ≡ false
      → any (λ (d : Deployment). d.id == dd.deployment_id) w.deployments ≡ true
      → has_live device_id dd.deployment_id w.db ≡ true
      → AllLive device_id dd.deployment_id current w.db
      → Refused dd.deployment_id current w.db
          (verdict current Status.failure)
          (after_report dd closing)
  report-Refused calm named there live all = elim (Option-cases (verdict current Status.failure)) [
    | inl taken ↦ rw taken (
        let (e, moved) =
          report_accepted mongo dd.deployment_id device_id failed current w calm named (λ h. cc)
            there live all taken in
        let (refused, kept) = after_report-ok dd closing e in
        (
          refused,
          subst (λ ds. OneMoved dd.deployment_id current Status.failure w.devices ds)
              (sym (ap (λ db. db.devices) kept)) moved,
        ))
    | inr (r, settled) ↦ rw settled (
        let (e, same) =
          report_settled mongo dd.deployment_id device_id failed w current r calm live all
            settled in
        after_settled r e same)
  ]

  -- A device that sends a request other than the one before is refused, while the database answers,
  -- its deployment is there, and its live device deployments in it all have one status. If that is
  -- aborted or decommissioned, with the error that says so, wrapped, and the database stays as it
  -- was. If it is a failure, with the error on conflicting data, and the database stays as it was. Else
  -- with the error on conflicting data, and one device deployment of the deployment goes from that
  -- status to a failure: the numbers of device deployments in each status of each deployment change
  -- by just that.
  pub save_device_deployment_request-Refused :
      (same : DeploymentNextRequest → DeploymentNextRequest → Bool)
      (old request : DeploymentNextRequest)
      → dd.request ≡ some old
      → same old request ≡ false
      → w.faults ≡ []
      → (is_empty device_id || is_empty dd.deployment_id) ≡ false
      → any (λ (d : Deployment). d.id == dd.deployment_id) w.deployments ≡ true
      → has_live device_id dd.deployment_id w.db ≡ true
      → AllLive device_id dd.deployment_id current w.db
      → Refused dd.deployment_id current w.db
          (verdict current Status.failure)
          (save_device_deployment_request mongo same device_id dd request w)
  unfolding save_device_deployment_request check_request close_device_deployment submitted ◌>>=◌
  save_device_deployment_request-Refused same old request before differ calm named there live all =
      rw (before, differ) (report-Refused calm named there live all)

-- ===== src/Http/Devices.antt =====
-- The handlers that devices call, and those about one device (api/http/api_deployments.go,
-- api/http/api_deployments_last_status.go). `same` and `equal_fold` are the standard library's
-- comparisons of requests and of texts; `url_text` writes an address
-- with its scheme and host. Fuel
-- is for the loops over deployments.
pub mod Conflicts
use deployments.Shared.{ℕ, ◌+◌, String, Bool, false, not, Option, none, some, List, [], ◌==◌}
use deployments.Shared.Tests.{if◌then◌else◌, nat_eq}
use deployments.Shared.Lists.{length}
use deployments.Model.Status.{Status}
use deployments.Model.Deployment.{is_empty}
use deployments.Model.DeviceDeployment.{DeviceDeploymentLastStatus}
use deployments.Model.Link.{Link, new_link}
use deployments.Model.Request.{InstalledDeviceDeployment, DeploymentNextRequest, validate_installed}
use deployments.Model.Instructions.{DeploymentInstructions}
use deployments.Store.Errors.{
  Result, ok, err, nil_dereference, deployment_aborted, device_decommissioned, not_found,
  conflicting_request_data,
}
use deployments.Store.Exec.{Exec, pure, raise, time_now, ◌>>=◌}
use deployments.Store.Mongo.{Mongo}
use deployments.App.Objects.{ObjectStorage, Library, Settings}
use deployments.App.Progress
use deployments.App.Instructions
use deployments.App.Instructions.{is_configuration}
use deployments.App.Decommission
use deployments.App.Queries
use deployments.Model.Signature.{Codec, Address}
use deployments.Http.Configuration.{Presign, presigned}
use deployments.Http.Request.{Request, Identity, Payload, Parsed, invalid, parsed}
use deployments.Http.View.{
  Handler, Reply, app, reply, also, render_error, render_internal_error, render_error_not_found,
  render_success_get, render_empty_success_response, invalid_body, invalid_schema, missing_identity,
}
use deployments.Http.Calls.{call, as_tenant, gone_reply, object_reply}

abbrev pub updated_reply : {A : Type 0} → Result (Unit {0}) → Reply A
updated_reply (ok done) = render_empty_success_response
updated_reply (err deployment_aborted) = render_error (app deployment_aborted) 409
updated_reply (err device_decommissioned) = render_error (app device_decommissioned) 409
updated_reply (err not_found) = render_error_not_found
updated_reply (err e) = render_internal_error

-- the parameters of the query, or the payload of a POST; validating a nil pointer panics
unfoldable pub installed_of :
    (String → String → Bool)
    → Request
    → Payload InstalledDeviceDeployment
    → Exec (Parsed InstalledDeviceDeployment)
installed_of equal_fold request payload =
    if equal_fold request.method "POST"
    then elim payload [
      | none ↦ pure (invalid invalid_schema)
      | some none ↦ raise nil_dereference
      | some (some installed) ↦ pure (parsed installed)
    ]
    else pure (
        parsed (record {
          artifact_name = request.query "artifact_name";
          device_type = request.query "device_type";
          provides = [];
        }))

module _ (mongo : Mongo) (objects : ObjectStorage) (library : Library) (codec : Codec)
    (url_text : String → String → Address → String) (conf : Presign) where
  abbrev instructed :
      Request
      → Identity
      → InstalledDeviceDeployment
      → Result (Option DeploymentInstructions)
      → Handler DeploymentInstructions
  instructed request idata installed (err conflicting_request_data) =
      reply (render_error (app conflicting_request_data) 409)
  instructed request idata installed (err e) = reply render_internal_error
  instructed request idata installed (ok none) = reply render_empty_success_response
  instructed request idata installed (ok (some d)) =
      if is_configuration mongo objects library d.type
      then presigned codec url_text conf request idata installed d
      else reply (render_success_get d)

  -- getDeploymentForDevice
  unfoldable pub deployment_for_device :
      (DeploymentNextRequest → DeploymentNextRequest → Bool)
      → Option Settings
      → ℕ
      → Request
      → Identity
      → InstalledDeviceDeployment
      → Handler DeploymentInstructions
  deployment_for_device same context fuel request idata installed = do
    r ← call (
        Instructions.get_deployment_for_device_with_current mongo objects library same context
          (some idata.tenant) fuel idata.subject
          (record { device_provides = some installed; update_control_map = false }))
    instructed request idata installed r

  abbrev installed_checked :
      (DeploymentNextRequest → DeploymentNextRequest → Bool)
      → Option Settings
      → ℕ
      → Request
      → Identity
      → Parsed InstalledDeviceDeployment
      → Handler DeploymentInstructions
  installed_checked same context fuel request idata (invalid m) = reply (render_error m 400)
  installed_checked same context fuel request idata (parsed installed) =
      if not (validate_installed library.rules installed)
      then reply (render_error invalid_body 400)
      else deployment_for_device same context fuel request idata installed

  unfoldable pub get_deployment_for_device :
      (DeploymentNextRequest → DeploymentNextRequest → Bool)
      → (String → String → Bool)
      → Option Settings
      → ℕ
      → Request
      → Payload InstalledDeviceDeployment
      → Handler DeploymentInstructions
  get_deployment_for_device same equal_fold context fuel request payload = elim request.identity [
    | none ↦ reply (render_error missing_identity 400)
    | some idata ↦ (do
      installed ← installed_of equal_fold request payload
      installed_checked same context fuel request idata installed)
  ]

module _ (mongo : Mongo) where
  abbrev put_status : String → Identity → Option (Status × String) → Handler (Unit {0})
  put_status id idata none = reply (render_error invalid_body 400)
  put_status id idata (some (status, sub_state)) = do
    r ← call (
        Progress.update_device_deployment_status mongo id idata.subject
          (record { status = status; sub_state = sub_state; finish_time = none }))
    reply (updated_reply r)

  -- The payload is a StatusReport that its own decoder validated.
  unfoldable pub put_deployment_status_for_device :
      Request → Option (Status × String) → Handler (Unit {0})
  put_deployment_status_for_device request payload = elim request.identity [
    | none ↦ reply (render_error missing_identity 400)
    | some idata ↦ put_status (request.param "id") idata payload
  ]

  unfoldable pub abort_device_deployments : ℕ → Request → Handler (Unit {0})
  abort_device_deployments fuel request = do
    r ← call (Decommission.abort_device_deployments mongo fuel (request.param "id"))
    reply (gone_reply r)

  unfoldable pub delete_device_deployments_history : Request → Handler (Unit {0})
  delete_device_deployments_history request = do
    r ← call (Decommission.delete_device_deployments_history mongo (request.param "id"))
    reply (gone_reply r)

  -- for the tenant in the path, if there is one
  abbrev under_tenant : {A : Type 0} → String → Exec A → Exec A
  under_tenant tenant m = if tenant == "" then m else as_tenant tenant m

  unfoldable pub abort_device_deployments_internal : ℕ → Request → Handler (Unit {0})
  abort_device_deployments_internal fuel request = do
    r ← call (
        under_tenant (request.param "tenantID")
          (Decommission.decommission_device mongo fuel (request.param "id")))
    reply (gone_reply r)

  abbrev last_status : String → List String → Handler (List DeviceDeploymentLastStatus)
  last_status tenant ids = do
    r ← call (under_tenant tenant (Queries.get_device_deployment_last_status mongo ids))
    reply (object_reply r)

  -- The payload is the list of devices. Without a device the handler wraps an error that is nil, and
  -- the library follows the nil pointer that this gives.
  unfoldable pub get_device_deployment_last_status :
      Request → Option (List String) → Handler (List DeviceDeploymentLastStatus)
  get_device_deployment_last_status request none = reply (render_error invalid_body 400)
  get_device_deployment_last_status request (some ids) =
      if nat_eq (length ids) 0
      then raise nil_dereference
      else last_status (request.param "tenant") ids

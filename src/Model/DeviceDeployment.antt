-- ===== src/Model/DeviceDeployment.antt =====
-- DeviceDeployment and DeviceDeploymentState of model/device_deployment.go, and the record of a
-- device's last status (model/device_deployment_last_status.go). A nil pointer is `none`.
use deployments.Shared.{ℕ, String, Bool, true, false, not, ◌&&◌, Option, none, some}
use deployments.Shared.Tests.{is_some, if◌then◌else◌}
use deployments.Model.Validation.{Rules}
use deployments.Model.Status
use deployments.Model.Status.{Status}
use deployments.Model.Image.{Image}
use deployments.Model.Request.{DeploymentNextRequest}

pub record DeviceDeploymentState : Type 0 where
  pub status : Status
  pub sub_state : String
  pub finish_time : Option ℕ

-- Validate: the status is required
unfoldable pub validate_state : DeviceDeploymentState → Bool
unfolding Status.status_eq
validate_state s = not (Status.status_eq s.status Status.null)

pub record DeviceDeployment : Type 0 where
  pub active : Bool
  pub created : Option ℕ
  pub finished : Option ℕ
  pub deleted : Option ℕ
  pub status : Status
  pub device_id : String
  pub deployment_id : String
  pub id : String
  pub image : Option Image
  pub request : Option DeploymentNextRequest
  pub is_log_available : Bool
  pub sub_state : String

-- NewDeviceDeployment: `now` and `uid` are what time.Now() and uuid.NewRandom() give
unfoldable pub new_device_deployment : ℕ → String → String → String → DeviceDeployment
new_device_deployment now uid device_id deployment_id = record {
  active = true;
  created = some now;
  finished = none;
  deleted = none;
  status = Status.pending;
  device_id = device_id;
  deployment_id = deployment_id;
  id = uid;
  image = none;
  request = none;
  is_log_available = false;
  sub_state = "";
}

pub data ValidationError : Type 0 where
  invalid_field status_mismatch : ValidationError

-- Validate of a DeviceDeployment
unfoldable pub validate : Rules → DeviceDeployment → Option ValidationError
validate rules d =
    if is_some d.created
      && is_some (Status.marshal_text d.status)
      && rules.required d.device_id
      && (rules.required d.deployment_id && rules.is_uuid d.deployment_id)
      && (rules.required d.id && rules.is_uuid d.id)
    then (if Status.active d.status
        then (if not d.active then some status_mismatch else none)
        else (if d.active then some status_mismatch else none))
    else some invalid_field

pub record DeviceDeploymentLastStatus : Type 0 where
  pub device_id : String
  pub deployment_id : String
  pub device_deployment_id : String
  pub device_deployment_status : Status
  pub tenant_id : String

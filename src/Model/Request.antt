-- ===== src/Model/Request.antt =====
-- What a device sends when it asks for its next deployment (DeploymentNextRequest and
-- InstalledDeviceDeployment of model/device_deployment.go).
use deployments.Shared.{String, Bool, false, not, ◌&&◌, Option, none, some, List}
use deployments.Shared.Lists.{any}
use deployments.Model.Validation.{Rules}

pub record InstalledDeviceDeployment : Type 0 where
  pub artifact_name : String
  pub device_type : String
  pub provides : List (String × String)

pub record DeploymentNextRequest : Type 0 where
  pub device_provides : Option InstalledDeviceDeployment
  pub update_control_map : Bool

module _ (rules : Rules) where
  open rules use {required, length_in}

  -- Validate of an InstalledDeviceDeployment; the rule on `provides` reads the values
  unfoldable pub validate_installed : InstalledDeviceDeployment → Bool
  validate_installed i =
      required i.artifact_name
      && length_in 1 4096 i.artifact_name
      && (required i.device_type && length_in 1 4096 i.device_type)
      && not (any (λ kv. not (length_in 1 4096 kv.1)) i.provides)

  -- Validate of a DeploymentNextRequest: the provides are there, and are valid themselves
  unfoldable pub validate_request : DeploymentNextRequest → Bool
  unfolding validate_installed
  validate_request r = elim r.device_provides [ none ↦ false | some i ↦ validate_installed i ]

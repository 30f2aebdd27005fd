-- ===== src/Model/Deployment/Definition.antt =====
-- Which definitions of a new deployment are accepted (ValidateNew of model/deployment.go).
use deployments.Shared.{◌≡◌, ◌↔◌, Bool, true, false, not, ◌&&◌, none, arith}
use deployments.Shared.Tests.{ltb}
use deployments.Shared.Lists.{length}
use deployments.Model.Validation.{Rules}
use deployments.Model.Deployment.{DeploymentConstructor, is_empty, validate, validate_new}

-- just one of three
abbrev pub exactly_one : Bool → Bool → Bool → Bool
exactly_one true b c = not b && not c
exactly_one false true c = not c
exactly_one false false c = c

-- A definition of a new deployment is accepted exactly when its fields are valid and it names its
-- devices in exactly one way: by a group, by a list of devices, or as all devices.
pub validate_new-exactly_one :
    (rules : Rules) (c : DeploymentConstructor)
    → (validate_new rules c ≡ none) ↔ (
        (validate rules c ≡ none)
        × (exactly_one (not (is_empty c.group)) (ltb 0 (length c.devices)) c.all_devices ≡ true))
unfolding validate_new
validate_new-exactly_one rules c = ground arith

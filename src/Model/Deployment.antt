-- ===== src/Model/Deployment.antt =====
-- Deployment and its constructors (model/deployment.go, model/configuration_deployment.go).
pub mod Lifecycle
pub mod Definition
use deployments.Shared.{
  ℕ, String, Bool, true, false, not, ◌&&◌, ◌||◌, Option, none, some, List, [], ◌∷◌, ◌==◌,
}
use deployments.Shared.Tests.{ltb, is_some, is_none, if◌then◌else◌}
use deployments.Shared.Lists.{length, any}
use deployments.Shared.Int.{ℤ, pos, ◌+ℤ◌, ltb_ℤ, leb_ℤ}
use deployments.Model.Validation.{Rules}
use deployments.Model.Status
use deployments.Model.Stats
use deployments.Model.Stats.{Stats}

-- The named constants; `unset` is Go's zero value "".
pub data DeploymentStatus : Type 0 where
  unset finished in_progress pending : DeploymentStatus

pub data DeploymentType : Type 0 where
  untyped software configuration : DeploymentType

pub record DeploymentConstructor : Type 0 where
  pub name : String
  pub artifact_name : String
  pub devices : List String
  pub all_devices : Bool
  pub force_installation : Bool
  pub group : String

-- Why a definition is refused: the rule of a field, or one of the three conflicts.
pub data DefinitionError : Type 0 where
  invalid_field no_devices conflict group_conflict : DefinitionError

-- `len(s) == 0` on a text
abbrev pub is_empty : String → Bool
is_empty s = s == ""

module _ (rules : Rules) where
  open rules use {required, length_in, is_uuid}

  unfoldable pub validate : DeploymentConstructor → Option DefinitionError
  validate c =
      if required c.name
        && length_in 1 4096 c.name
        && (required c.artifact_name && length_in 1 4096 c.artifact_name)
        && not (any (λ d. not (required d)) c.devices)
      then none
      else some invalid_field

  validate_target : DeploymentConstructor → Option DefinitionError
  validate_target c =
      if not (ltb 0 (length c.devices)) && not c.all_devices
      then some no_devices
      else if ltb 0 (length c.devices) && c.all_devices
      then some conflict
      else none

  -- ValidateNew
  unfoldable pub validate_new : DeploymentConstructor → Option DefinitionError
  unfolding validate validate_target
  validate_new c = elim (validate c) [
    | some e ↦ some e
    | none ↦
        if is_empty c.group
        then validate_target c
        else if ltb 0 (length c.devices) || c.all_devices
        then some group_conflict
        else none
  ]

-- Timestamps are numbers, a nil pointer is `none`. `max_devices` is only ever written from a
-- length, or as 1, and `device_count` counts documents, so both are natural.
pub record Deployment : Type 0 where
  pub constructor : DeploymentConstructor
  pub open constructor use *
  pub created : Option ℕ
  pub finished_at : Option ℕ
  pub id : String
  pub artifacts : List String
  pub stats : Stats
  pub total_size : ℤ
  pub status : DeploymentStatus
  pub active : Bool
  pub device_count : Option ℕ
  pub max_devices : ℕ
  pub groups : List String
  pub device_list : List String
  pub type : DeploymentType
  pub configuration_blob : String

abbrev pub empty_constructor : DeploymentConstructor
empty_constructor = record {
  name = "";
  artifact_name = "";
  devices = [];
  all_devices = false;
  force_installation = false;
  group = "";
}

-- NewDeployment: `now` and `uid` are what time.Now() and uuid.NewRandom() give
unfoldable pub new_deployment : ℕ → String → Deployment
new_deployment now uid = record {
  constructor = empty_constructor;
  created = some now;
  finished_at = none;
  id = uid;
  artifacts = [];
  stats = Stats.new_stats;
  total_size = pos 0;
  status = unset;
  active = false;
  device_count = none;
  max_devices = 0;
  groups = [];
  device_list = [];
  type = untyped;
  configuration_blob = "";
}

-- NewDeploymentFromConstructor
unfoldable pub new_deployment_from_constructor : ℕ → String → DeploymentConstructor → Deployment
unfolding new_deployment
new_deployment_from_constructor now uid c = record (new_deployment now uid) {
  constructor = c;
  status = pending;
  device_count = some 0;
}

pub record ConfigurationDeploymentConstructor : Type 0 where
  pub name : String
  pub configuration : String
  pub retries : ℕ

-- NewDeploymentWithID, and NewDeploymentFromConfigurationDeploymentConstructor, which calls it
unfoldable pub new_deployment_from_configuration :
    ℕ → ConfigurationDeploymentConstructor → String → Deployment
unfolding new_deployment
new_deployment_from_configuration now c deployment_id = record (new_deployment now deployment_id) {
  constructor = record empty_constructor { name = c.name; artifact_name = c.name };
  status = pending;
  device_count = some 0;
}

-- the counter of a status, `d.Stats[...Str]`
abbrev counter : Deployment → Status.Status → ℤ
counter d s = Stats.get d.stats s

abbrev positive : ℤ → Bool
positive n = ltb_ℤ (pos 0) n

unfoldable pub is_not_pending : Deployment → Bool
is_not_pending d =
    positive (counter d Status.downloading)
    || positive (counter d Status.installing)
    || positive (counter d Status.rebooting)
    || positive (counter d Status.success)
    || positive (counter d Status.already_inst)
    || positive (counter d Status.failure)
    || positive (counter d Status.aborted)
    || positive (counter d Status.no_artifact)
    || positive (counter d Status.pause_before_install)
    || positive (counter d Status.pause_before_commit)
    || positive (counter d Status.pause_before_reboot)

unfoldable pub is_finished : Deployment → Bool
is_finished d =
    is_some d.finished_at
    || (ltb 0 d.max_devices
        && leb_ℤ (pos d.max_devices) (
            counter d Status.already_inst
            +ℤ counter d Status.success
            +ℤ counter d Status.failure
            +ℤ counter d Status.no_artifact
            +ℤ counter d Status.decommissioned
            +ℤ counter d Status.aborted))

-- GetStatus
unfoldable pub get_status : Deployment → DeploymentStatus
unfolding is_finished is_not_pending
get_status d = if is_finished d then finished else if is_not_pending d then in_progress else pending

-- Validate of a Deployment; the library also validates the definition, which is not nil here
unfoldable pub validate_deployment : Rules → Deployment → Bool
unfolding validate
validate_deployment rules d =
    is_none (validate rules d.constructor)
    && is_some d.created
    && rules.required d.id
    && rules.is_uuid d.id
    && not (any (λ a. not (rules.required a)) d.artifacts)
    && not (any (λ a. not (rules.required a)) d.device_list)

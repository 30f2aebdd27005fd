-- ===== src/App/Instructions.antt =====
-- What a device that asks is told to install: app/app_os.go, and saveDeviceDeploymentRequest,
-- getDeploymentInstructions and GetDeploymentForDeviceWithCurrent of app/app.go. `same` is the
-- standard library's comparison of two requests.
pub mod Refusal
pub mod Artifact
pub mod Answers
mod Tests
use Prim.Native.String.{◌++◌ as append}
use deployments.Shared.{
  ℕ, String, Bool, true, false, not, ◌&&◌, ◌||◌, Option, none, some, List, [], ◌∷◌, ◌==◌,
}
use deployments.Shared.Tests.{if◌then◌else◌, nat_eq}
use deployments.Shared.Lists.{length}
use deployments.Model.Status
use deployments.Model.Status.{Status}
use deployments.Model.Deployment.{Deployment, DeploymentType, is_empty, configuration, untyped}
use deployments.Model.DeviceDeployment.{DeviceDeployment, DeviceDeploymentState}
use deployments.Model.Image.{Image}
use deployments.Model.Link.{Link}
use deployments.Model.Request.{InstalledDeviceDeployment, DeploymentNextRequest, validate_installed}
use deployments.Model.Instructions.{DeploymentInstructions}
use deployments.Store.Errors.{
  Error, Result, ok, err, invalid_document, model_internal, nil_dereference,
  conflicting_request_data,
}
use deployments.Store.Exec.{
  Exec, pure, raise, refuse_if, or_raise, wrap, logged, attempt, give_back, ◌>>=◌, ◌>>◌,
}
use deployments.Store.Mongo.{Mongo}
use deployments.Store.Devices
use deployments.Store.Deployments
use deployments.Store.Images
use deployments.App.Reindex.{reindex_device, reindex_deployment}
use deployments.App.Progress.{update_device_deployment_status}
use deployments.App.Assignment.{get_deployment_for_device}
use deployments.App.Releases.{map_error}
use deployments.App.Objects.{
  ObjectStorage, Library, Settings, image_path, context_with_storage_settings,
}

-- DefaultUpdateDownloadLinkExpire, in nanoseconds
abbrev pub link_expire : ℕ
link_expire = 86400000000000

-- the artifact that the device has is the one that it would install
unfoldable pub is_already_installed : DeploymentNextRequest → DeviceDeployment → Bool
is_already_installed request dd = elim request.device_provides [
  | none ↦ false
  | some installed ↦ elim dd.image [
    | none ↦ false
    | some image ↦ installed.artifact_name == image.meta.name
  ]
]

abbrev pub no_link : Link
no_link = record { uri = ""; expire = 0; method = ""; header = []; tenant_id = "" }

abbrev pub configure :
    Deployment → DeviceDeployment → InstalledDeviceDeployment → DeploymentInstructions
configure deployment dd installed = record {
  id = deployment.id;
  artifact = record {
    id = append deployment.id dd.device_id;
    artifact_name = deployment.constructor.artifact_name;
    source = no_link;
    device_types_compatible = installed.device_type ∷ [];
  };
  type = configuration;
}

abbrev pub install : DeviceDeployment → Image → Link → DeploymentInstructions
install dd image link = record {
  id = dd.deployment_id;
  artifact = record {
    id = image.id;
    artifact_name = image.meta.name;
    source = link;
    device_types_compatible = image.meta.device_types_compatible;
  };
  type = untyped;
}

module _ (mongo : Mongo) where
  -- the status of a device deployment is set by the service itself
  unfoldable pub close_device_deployment : DeviceDeployment → String → Status → Exec (Unit {0})
  close_device_deployment dd device_id status = do
    wrap (
        update_device_deployment_status mongo dd.deployment_id device_id
          (record { status = status; sub_state = ""; finish_time = none }))
    logged (reindex_device dd.device_id)
    logged (reindex_deployment dd.device_id dd.deployment_id dd.id)

  unfoldable pub handle_already_installed : DeviceDeployment → Exec (Unit {0})
  handle_already_installed dd = close_device_deployment dd dd.device_id Status.already_inst

  unfoldable pub assign_no_artifact : DeviceDeployment → Exec (Unit {0})
  assign_no_artifact dd = close_device_deployment dd dd.device_id Status.no_artifact

  -- the artifact for a device: by the deployment's artifacts, or by the name that the device has
  unfoldable pub artifact_for : Deployment → InstalledDeviceDeployment → Exec (Option Image)
  artifact_for deployment installed =
      if nat_eq (length deployment.artifacts) 0
      then wrap
          (Images.image_by_name_and_device_type mongo installed.artifact_name installed.device_type)
      else wrap
          (Images.image_by_ids_and_device_type mongo deployment.artifacts installed.device_type)

  -- what is done with the artifact that was found; the device deployment comes back with it
  unfoldable pub take_artifact : DeviceDeployment → Option Image → Exec DeviceDeployment
  take_artifact dd none = do assign_no_artifact dd; pure (record dd { image = none })
  take_artifact dd (some artifact) = do
    wrap (Devices.assign_artifact mongo dd.device_id dd.deployment_id artifact)
    pure (record dd { image = some artifact })

  unfoldable pub assign_artifact :
      Library
      → Deployment
      → DeviceDeployment
      → Option InstalledDeviceDeployment
      → Exec DeviceDeployment
  assign_artifact library deployment dd none = raise nil_dereference
  assign_artifact library deployment dd (some installed) = do
    refuse_if (not (validate_installed library.rules installed)) invalid_document
    refuse_if (is_empty dd.deployment_id || is_empty dd.device_id) model_internal
    artifact ← artifact_for deployment installed
    take_artifact dd artifact

  -- the request is saved, unless there is one already; a request that differs from that closes
  -- the device deployment
  unfoldable pub check_request :
      (DeploymentNextRequest → DeploymentNextRequest → Bool)
      → String
      → DeviceDeployment
      → DeploymentNextRequest
      → Option DeploymentNextRequest
      → Exec (Unit {0})
  check_request same device_id dd request none =
      Devices.save_device_deployment_request mongo dd.id request
  check_request same device_id dd request (some old) =
      if not (same old request)
      then (do close_device_deployment dd device_id Status.failure; raise conflicting_request_data)
      else pure tt

  unfoldable pub save_device_deployment_request :
      (DeploymentNextRequest → DeploymentNextRequest → Bool)
      → String
      → DeviceDeployment
      → DeploymentNextRequest
      → Exec (Unit {0})
  save_device_deployment_request same device_id dd request =
      check_request same device_id dd request dd.request

module _ (mongo : Mongo) (objects : ObjectStorage) (library : Library) where
  -- the link to the image, after its size is added to the deployment's if it was assigned just now
  unfoldable pub instruct :
      Option Settings
      → Option String
      → DeviceDeployment
      → Image
      → Bool
      → Exec (Option DeploymentInstructions)
  instruct context identity dd image assigned = do
    if assigned
        then logged (Deployments.increment_deployment_total_size mongo dd.deployment_id image.size)
        else pure tt
    settings ← context_with_storage_settings library.rules context
    link ← wrap (
        objects.get_request settings (image_path library.join identity image.id)
          (append image.meta.name ".mender") link_expire)
    pure (some (install dd image link))

  -- the answer for a device deployment whose artifact, if there is one, is settled
  unfoldable pub answer :
      Option Settings
      → Option String
      → Deployment
      → DeploymentNextRequest
      → Bool
      → DeviceDeployment
      → Option Image
      → Exec (Option DeploymentInstructions)
  answer context identity deployment request assigned dd none = pure none
  answer context identity deployment request assigned dd (some image) =
      if not deployment.constructor.force_installation
        && is_already_installed request dd
        && Status.status_eq dd.status Status.pending
      then (do handle_already_installed mongo dd; pure none)
      else instruct context identity dd image assigned

  unfoldable pub is_configuration : DeploymentType → Bool
  is_configuration configuration = true
  is_configuration _ = false

  unfoldable pub configuration_for :
      Deployment
      → DeviceDeployment
      → Option InstalledDeviceDeployment
      → Exec (Option DeploymentInstructions)
  configuration_for deployment dd none = raise nil_dereference
  configuration_for deployment dd (some installed) = pure (some (configure deployment dd installed))

  -- an artifact is assigned if the device deployment has none
  unfoldable pub get_deployment_instructions :
      Option Settings
      → Option String
      → Deployment
      → DeviceDeployment
      → DeploymentNextRequest
      → Exec (Option DeploymentInstructions)
  get_deployment_instructions context identity deployment dd request =
      if is_configuration deployment.type
      then configuration_for deployment dd request.device_provides
      else elim dd.image [
        | none ↦ (do
          assigned ← assign_artifact mongo library deployment dd request.device_provides
          answer context identity deployment request true assigned assigned.image)
        | some image ↦ answer context identity deployment request false dd (some image)
      ]

  unfoldable pub instructions_of :
      (DeploymentNextRequest → DeploymentNextRequest → Bool)
      → Option Settings
      → Option String
      → String
      → DeploymentNextRequest
      → Option (Deployment × DeviceDeployment)
      → Exec (Option DeploymentInstructions)
  instructions_of same context identity device_id request none = pure none
  instructions_of same context identity device_id request (some (deployment, dd)) = do
    save_device_deployment_request mongo same device_id dd request
    get_deployment_instructions context identity deployment dd request

  unfoldable pub get_deployment_for_device_with_current :
      (DeploymentNextRequest → DeploymentNextRequest → Bool)
      → Option Settings
      → Option String
      → ℕ
      → String
      → DeploymentNextRequest
      → Exec (Option DeploymentInstructions)
  get_deployment_for_device_with_current same context identity fuel device_id request = do
    r ← attempt (get_deployment_for_device mongo fuel device_id)
    found ← give_back (map_error (λ e. model_internal) r)
    instructions_of same context identity device_id request found

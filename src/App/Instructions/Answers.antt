-- ===== src/App/Instructions/Answers.antt =====
-- What the answers to a device are (getDeploymentInstructions of app/app.go).
use mathlib.Core.Path.{subst}
use deployments.Shared.{◌≡◌, refl, ap, String, Bool, true, false, Option, none, some, List}
use deployments.Model.Deployment.{Deployment}
use deployments.Model.DeviceDeployment.{DeviceDeployment}
use deployments.Model.Image.{Image}
use deployments.Model.Instructions.{DeploymentInstructions}
use deployments.Model.Request.{DeploymentNextRequest, InstalledDeviceDeployment}
use deployments.Store.World.{World}
use deployments.Store.Exec.Returns.{
  Returned, Returns, Returns-pure, Returns-bind, Returns-if, Returned-refuse_if, Returned-bind,
}
use deployments.Store.Mongo.{Mongo}
use deployments.App.Objects.{ObjectStorage, Library, Settings}
use deployments.App.Instructions.{
  assign_artifact, take_artifact, answer, instruct, get_deployment_instructions, is_configuration,
}
use deployments.App.Instructions.Artifact.{qualifies, IsSmallest, Choice, artifact_for-Choice}

-- the instructions of a deployment name an image
abbrev pub Names : String → Image → DeploymentInstructions → Type 0
Names id image answer =
    (answer.id ≡ id)
    × (answer.artifact.id ≡ image.id)
    × (answer.artifact.artifact_name ≡ image.meta.name)
    × (answer.artifact.device_types_compatible ≡ image.meta.device_types_compatible)

-- no instructions, or such for the smallest of the artifacts that qualify
abbrev pub Chosen : (Image → Bool) → List Image → String → Option DeploymentInstructions → Type 0
Chosen p images id none = Unit
Chosen p images id (some answer) =
    (image : Image) × IsSmallest p images image × Names id image answer

abbrev Taken : (Image → Bool) → List Image → DeviceDeployment → DeviceDeployment → Type 0
Taken p images dd dd' =
    (dd'.deployment_id ≡ dd.deployment_id)
    × ((image : Image) → dd'.image ≡ some image → IsSmallest p images image)

from_some : Image → Option Image → Image
from_some i none = i
from_some i (some j) = j

Some-injective : {i j : Image} → some i ≡ some j → i ≡ j
unfolding from_some
Some-injective {i} e = ap (from_some i) e

module _ (mongo : Mongo) (objects : ObjectStorage) (library : Library) where
  take-Taken :
      (p : Image → Bool) (images : List Image) (dd : DeviceDeployment) (o : Option Image)
      → Choice p images o
      → Returns (Taken p images dd) (take_artifact mongo dd o)
  unfolding take_artifact
  take-Taken p images dd none h =
      Returns-bind _ _ (λ x. Returns-pure _ (refl, λ image e. absurd cc))
  take-Taken p images dd (some i) h =
      Returns-bind _ _
        (λ x. Returns-pure _ (refl, λ image e. subst (IsSmallest p images) (Some-injective e) h))

  assign_artifact-Taken :
      (deployment : Deployment) (dd : DeviceDeployment) (installed : InstalledDeviceDeployment)
      (w : World)
      → Returned
          (Taken (qualifies deployment installed) w.images dd)
          (assign_artifact mongo library deployment dd (some installed) w).0
  unfolding assign_artifact
  assign_artifact-Taken deployment dd installed w = Returned-refuse_if _ w _ _ _ (
      Returned-refuse_if _ w _ _ _ (
        Returned-bind _ _ w _ _ (artifact_for-Choice mongo deployment installed w)
          (λ o h. take-Taken (qualifies deployment installed) w.images dd o h)))

  instruct-Names :
      (context : Option Settings) (identity : Option String) (dd : DeviceDeployment) (image : Image)
      (assigned : Bool) (p : Image → Bool) (images : List Image) (deployment_id : String)
      → dd.deployment_id ≡ deployment_id
      → IsSmallest p images image
      → Returns
          (Chosen p images deployment_id)
          (instruct mongo objects library context identity dd image assigned)
  unfolding instruct
  instruct-Names context identity dd image assigned p images deployment_id id h =
      Returns-bind _ _ (λ x.
        Returns-bind _ _
          (λ s. Returns-bind _ _ (λ link. Returns-pure _ (image, h, (id, refl, refl, refl)))))

  answer-Chosen :
      (context : Option Settings) (identity : Option String) (deployment : Deployment)
      (request : DeploymentNextRequest) (p : Image → Bool) (images : List Image)
      (dd' : DeviceDeployment) (id : String) (o : Option Image)
      → dd'.deployment_id ≡ id
      → ((image : Image) → o ≡ some image → IsSmallest p images image)
      → Returns
          (Chosen p images id)
          (answer mongo objects library context identity deployment request true dd' o)
  unfolding answer
  answer-Chosen context identity deployment request p images dd' id none e h = Returns-pure none tt
  answer-Chosen context identity deployment request p images dd' id (some image) e h =
      Returns-if _ _ _ (Returns-bind _ _ (λ x. Returns-pure none tt))
        (instruct-Names context identity dd' image true p images id e (h image refl))

  -- A device asks for a deployment that is no configuration, and its device deployment has no artifact yet.
  -- Whatever the calls of the database and of the object storage come back with: if the answer is
  -- instructions, they are those of an image that is in the database as the call begins, that the
  -- deployment has for the device (one of its artifacts, or by the name that the device has if
  -- the deployment is an old one without artifacts, and in each case compatible with the
  -- device's type), and than which no such image is smaller; they name that image, its
  -- artifact and its device types, and the deployment.
  pub get_deployment_instructions-Chosen :
      (context : Option Settings) (identity : Option String) (deployment : Deployment)
      (dd : DeviceDeployment) (request : DeploymentNextRequest)
      (installed : InstalledDeviceDeployment) (w : World)
      → is_configuration mongo objects library deployment.type ≡ false
      → dd.image ≡ none
      → request.device_provides ≡ some installed
      → Returned
          (Chosen (qualifies deployment installed) w.images dd.deployment_id)
          (get_deployment_instructions mongo objects library context identity deployment dd request
            w).0
  unfolding get_deployment_instructions
  get_deployment_instructions-Chosen context identity deployment dd request installed w software new
        provides =
      simp (software, new, provides)
        (Returned-bind _ _ w _ _ (assign_artifact-Taken deployment dd installed w) (λ dd' h.
          answer-Chosen context identity deployment request (qualifies deployment installed)
            w.images dd' dd.deployment_id dd'.image h.0 h.1))

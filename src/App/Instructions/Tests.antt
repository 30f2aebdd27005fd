-- ===== src/App/Instructions/Tests.antt =====
-- The answers to a device at a small world with two artifacts of a deployment.
use deployments.Shared.{◌≡◌, refl, String, false, none, some, [], ◌∷◌}
use deployments.Model.Status
use deployments.Model.DeviceDeployment.{DeviceDeployment}
use deployments.Model.Request.{DeploymentNextRequest, InstalledDeviceDeployment}
use deployments.Store.World.{World}
use deployments.Store.Exec.Returns.{Returned}
use deployments.Store.Mongo.Reference.{reference}
use deployments.App.Samples.{
  database, deployment, device_deployment, world, artifact, objects, library,
}
use deployments.App.Instructions.{
  get_deployment_instructions, is_configuration, save_device_deployment_request,
}
use deployments.App.Instructions.Artifact.{qualifies}
use deployments.App.Instructions.Answers.{Chosen, get_deployment_instructions-Chosen}
use deployments.App.Instructions.Refusal.{Refused, save_device_deployment_request-Refused}
use deployments.App.Progress.Outcome.{verdict}
use deployments.Shared.Lists.{any}

abbrev shelves : World
shelves = record world {
  db = record database { images = artifact "img" 9 ∷ artifact "other" 3 ∷ [] };
}

abbrev installed : String → InstalledDeviceDeployment
installed name = record { artifact_name = name; device_type = "board"; provides = [] }

abbrev asking : String → DeploymentNextRequest
asking name = record { device_provides = some (installed name); update_control_map = false }

abbrev asked : DeviceDeployment
asked = record (device_deployment "a" "one" Status.pending) { request = some (asking "old") }

software : is_configuration reference objects library deployment.type ≡ false
unfolding is_configuration
software = refl

get_deployment_instructions-Chosen_example :
    Returned
      (Chosen (qualifies deployment (installed "old")) shelves.images "dep")
      (get_deployment_instructions reference objects library none none deployment asked
        (asking "old")
        shelves).0
get_deployment_instructions-Chosen_example =
    get_deployment_instructions-Chosen reference objects library none none deployment asked
      (asking "old") (installed "old") shelves software refl refl

save_device_deployment_request-Refused_example :
    Refused "dep" Status.pending shelves.db none
      (save_device_deployment_request reference (λ a b. false) "one" asked (asking "new") shelves)
unfolding any verdict Status.status_eq
save_device_deployment_request-Refused_example =
    save_device_deployment_request-Refused reference "one" asked Status.pending shelves
      (λ a b. false) (asking "old") (asking "new") refl refl refl refl refl refl
      ((λ h. refl), ((λ h. absurd (cc)), tt))

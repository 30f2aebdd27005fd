-- ===== src/Model/Tests.antt =====
-- The data model at concrete values (model/).
use Prim.Native.Nat.{bit_and}
use deployments.Model.Link.{marshal_link_status, unmarshal_link_status, link_status_processed_mask}
use deployments.Model.Link.Texts.{unmarshal-marshal_link_status}
use deployments.Shared.{◌≡◌, ◌↔◌, refl, true, false, not, ◌&&◌, none, some, [], ◌∷◌, arith}
use deployments.Shared.Tests.{if◌then◌else◌, ltb, nat_eq}
use deployments.Shared.Lists.{any, count, length}
use deployments.Shared.Int.{pos}
use deployments.Model.Status
use deployments.Model.Status.{Status, status_eq}
use deployments.Model.Status.Laws.{unmarshal_text-marshal_text, active_or_finished}
use deployments.Model.Stats
use deployments.Model.Stats.{Stats}
use deployments.Model.Samples.{rules}
use deployments.Model.Deployment
use deployments.Model.Deployment.{Deployment, DeploymentConstructor, is_empty}
use deployments.Model.Deployment.Lifecycle.{begun, get_status-view}
use deployments.Model.Deployment.Definition.{exactly_one, validate_new-exactly_one}

unmarshal_text-marshal_text_example :
    (Status.unmarshal_text "noartifact" ≡ some Status.no_artifact)
    ↔ (Status.marshal_text Status.no_artifact ≡ some "noartifact")
unmarshal_text-marshal_text_example = unmarshal_text-marshal_text "noartifact" Status.no_artifact

active_or_finished_example :
    (Status.is_finished Status.rebooting ≡ not (Status.active Status.rebooting))
    × (any (status_eq Status.rebooting) Status.all_statuses ≡ true)
    × (any (status_eq Status.rebooting) Status.active_statuses ≡ Status.active Status.rebooting)
    × (any (status_eq Status.rebooting) Status.inactive_statuses
        ≡ Status.is_finished Status.rebooting)
active_or_finished_example = active_or_finished Status.rebooting (λ e. cc)

abbrev two_devices : Deployment
two_devices = record (Deployment.new_deployment 5 "dep") {
  stats = ("success", pos 1) ∷ ("pending", pos 1) ∷ [];
  max_devices = 2;
}

tallied :
    (s : Status)
    → Stats.get two_devices.stats s
      ≡ pos (count (status_eq s) (Status.success ∷ Status.pending ∷ []))
unfolding Stats.get Stats.get_key Status.to_string count status_eq
tallied Status.null = refl
tallied _ = refl

get_status-view_example : Deployment.get_status two_devices ≡ (
    if nat_eq (length (Status.success ∷ Status.pending ∷ [])) two_devices.max_devices
      && not (any (λ s. not (Status.is_finished s)) (Status.success ∷ Status.pending ∷ []))
    then Deployment.finished
    else if any begun (Status.success ∷ Status.pending ∷ [])
    then Deployment.in_progress
    else Deployment.pending)
unfolding Deployment.new_deployment
get_status-view_example =
    get_status-view two_devices (Status.success ∷ Status.pending ∷ []) tallied refl (omega arith)
      (omega arith)

abbrev definition : DeploymentConstructor
definition = record {
  name = "n";
  artifact_name = "a";
  devices = "one" ∷ [];
  all_devices = false;
  force_installation = false;
  group = "";
}

validate_new-exactly_one_example : (Deployment.validate_new rules definition ≡ none) ↔ (
    (Deployment.validate rules definition ≡ none)
    × (exactly_one (not (is_empty "")) (ltb 0 1) false ≡ true))
validate_new-exactly_one_example = validate_new-exactly_one rules definition

settled_text : marshal_link_status 176 ≡ some "aborted"
unfolding marshal_link_status
settled_text = refl

unmarshal-marshal_link_status_example :
    unmarshal_link_status (λ t. t) "aborted" ≡ some (bit_and 176 link_status_processed_mask)
unmarshal-marshal_link_status_example =
    unmarshal-marshal_link_status (λ t. t) 176 "aborted" settled_text refl

-- ===== src/Model/Instructions.antt =====
-- What a device is told to install (model/deployment_instructions.go).
use deployments.Shared.{String, List}
use deployments.Model.Link.{Link}
use deployments.Model.Deployment.{DeploymentType}

pub record ArtifactDeploymentInstructions : Type 0 where
  pub id : String
  pub artifact_name : String
  pub source : Link
  pub device_types_compatible : List String

pub record DeploymentInstructions : Type 0 where
  pub id : String
  pub artifact : ArtifactDeploymentInstructions
  pub type : DeploymentType

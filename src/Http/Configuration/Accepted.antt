-- ===== src/Http/Configuration/Accepted.antt =====
-- The link to a configuration is accepted by the handler of the download (getDeploymentForDevice and
-- DownloadConfiguration of api/http/api_deployments.go).
use deployments.Shared.{ℕ, String, Option}
use deployments.Model.Deployment.{Deployment}
use deployments.Model.Signature.{Codec, Address}
use deployments.Model.Signature.Signed.{signed}
use deployments.Store.World.{World}
use deployments.Store.Mongo.{Mongo}
use deployments.Http.Request.{Request, Identity}
use deployments.Model.Link.{Link}
use deployments.Http.Configuration.{Presign, config_address}

module _ (mongo : Mongo) (codec : Codec) (write_artifact : String → Deployment → Option String)
    (conf : Presign) (secret : String) (idata : Identity) (expire : ℕ) where
  -- the address that a device gets for a configuration
  abbrev pub handed_out : String → String → Address
  handed_out deployment_id device_type =
      signed codec secret (config_address deployment_id device_type idata) expire

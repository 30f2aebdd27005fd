-- ===== src/Http/Configuration.antt =====
-- The link to a configuration, and its download (getDeploymentForDevice, DownloadConfiguration and
-- FMTConfigURL of api/http, GenerateConfigurationImage of app/app.go). `url_text` writes an address
-- with its scheme and host, and `write_artifact` reads the configuration of a deployment as JSON and
-- writes an artifact of it for a type of device, both with Go's libraries.
pub mod Accepted
mod Tests
use Prim.Native.String.{◌++◌ as append}
use deployments.Shared.{
  ℕ, ◌+◌, String, Bool, true, false, not, ◌||◌, Option, none, some, List, [], ◌∷◌, ◌==◌,
}
use deployments.Shared.Tests.{if◌then◌else◌}
use deployments.Model.Deployment.{Deployment, is_empty}
use deployments.Model.Link.{Link, new_link}
use deployments.Model.Request.{InstalledDeviceDeployment}
use deployments.Model.Instructions.{DeploymentInstructions}
use deployments.Model.Signature
use deployments.Model.Signature.{
  Codec, Values, Address, SignatureError, link_expired, bad_parameters, set_expire, presign_url,
  verify_hmac256,
}
use deployments.Store.Errors.{Result, ok, err, deployment_not_found, invalid_document, wrapped}
use deployments.Store.Exec.{Exec, pure, or_raise, time_now, ◌>>=◌}
use deployments.Store.Mongo.{Mongo}
use deployments.Store.Deployments
use deployments.Http.Request.{Request, Identity}
use deployments.Http.View.{
  Handler, Reply, Message, app, not_found, bad_signature, reply, render_error,
  render_internal_error, render_success_get,
}
use deployments.Http.View
use deployments.Http.Calls.{call, cause, as_tenant}

-- the configuration of the handlers for the links; a secret of `none` is a nil slice
pub record Presign : Type 0 where
  pub secret : Option String
  pub scheme : String
  pub hostname : String
  pub expire : ℕ

-- The path that FMTConfigURL gives, as a server reads it
unfoldable pub config_path : String → String → String → String
config_path deployment_id device_type device_id =
    append "/api/devices/v1/deployments/download/configuration/"
      (append deployment_id (append "/" (append device_type (append "/" device_id))))

-- the address before it is signed: the tenant is in its query, if there is one
unfoldable pub config_address : String → String → Identity → Address
config_address deployment_id device_type idata = record {
  method = "GET";
  path = config_path deployment_id device_type idata.subject;
  query = if is_empty idata.tenant then [] else (Signature.param_tenant_id, idata.tenant) ∷ [];
}

abbrev sourced : DeploymentInstructions → Link → DeploymentInstructions
sourced d link = record d { artifact = record d.artifact { source = link } }

-- a nil secret is the empty one
abbrev pub key : Option String → String
key none = ""
key (some secret) = secret

module _ (codec : Codec) (url_text : String → String → Address → String) (conf : Presign) where
  -- the link to a configuration, if there is a host for it
  unfoldable pub presigned :
      Request
      → Identity
      → InstalledDeviceDeployment
      → DeploymentInstructions
      → Handler DeploymentInstructions
  presigned request idata installed d =
      let hostname = if is_empty conf.hostname then request.forwarded_host else conf.hostname in
      if is_empty hostname then reply render_internal_error else do
        now ← time_now
        let expire = now + conf.expire
        let address = config_address d.id installed.device_type idata
        let signed = presign_url codec (key conf.secret) (set_expire codec expire address)
        reply (
            render_success_get (sourced d (new_link (url_text conf.scheme hostname signed) expire)))

module _ (mongo : Mongo) (codec : Codec)
    (write_artifact : String → Deployment → Option String) where
  -- GenerateConfigurationImage
  unfoldable pub generate_configuration_image : String → String → Exec String
  generate_configuration_image device_type deployment_id = do
    found ← Deployments.find_deployment_by_id mongo deployment_id
    deployment ← or_raise deployment_not_found found
    or_raise (wrapped invalid_document) (write_artifact device_type deployment)

  abbrev pub generated_reply : Result String → Reply String
  generated_reply (ok artifact) = render_success_get artifact
  generated_reply (err e) = elim (cause e) [
    | deployment_not_found ↦ render_error (app deployment_not_found) 404
    | _ ↦ render_internal_error
  ]

  abbrev download_checked :
      String → String → String → Address → Option SignatureError → Handler String
  download_checked secret device_type deployment_id a (some link_expired) =
      reply (render_error View.link_expired 403)
  download_checked secret device_type deployment_id a (some bad_parameters) =
      reply (render_error View.bad_parameters 400)
  download_checked secret device_type deployment_id a none =
      if not (verify_hmac256 codec secret a) then reply (render_error bad_signature 403) else do
        r ← call (
            as_tenant (Signature.get Signature.param_tenant_id a.query)
              (generate_configuration_image device_type deployment_id))
        reply (generated_reply r)

  abbrev download_signed : String → String → String → Address → Handler String
  download_signed secret device_type deployment_id a = do
    now ← time_now
    download_checked secret device_type deployment_id a (Signature.validate codec now a)

  -- DownloadConfiguration; `a` is the address of the request. The artifact is the body of the answer.
  unfoldable pub download_configuration : Presign → Request → Address → Handler String
  download_configuration conf request a = elim conf.secret [
    | none ↦ reply (render_error not_found 404)
    | some secret ↦
        if is_empty (request.param "device_id")
          || is_empty (request.param "device_type")
          || is_empty (request.param "deployment_id")
        then reply (render_error not_found 404)
        else download_signed secret (request.param "device_type") (request.param "deployment_id") a
  ]

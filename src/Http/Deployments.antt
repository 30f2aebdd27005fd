-- ===== src/Http/Deployments.antt =====
-- The handlers that create, read and abort deployments (api/http/api_deployments.go). Fuel is for the
-- pages of the inventory.

pub mod Aborting
use Prim.Native.String.{◌++◌ as append}
use deployments.Shared.{ℕ, String, Bool, true, false, not, ◌&&◌, Option, none, some, List, ◌==◌}
use deployments.Shared.Tests.{if◌then◌else◌}
use deployments.Model.Validation.{Rules}
use deployments.Model.Status
use deployments.Model.Status.{Status}
use deployments.Model.Stats.{Stats}
use deployments.Model.Deployment.{
  Deployment, DeploymentConstructor, ConfigurationDeploymentConstructor, DefinitionError,
  validate_new, is_empty,
}
use deployments.Store.Errors.{
  Result, ok, err, nil_dereference, no_artifact, no_devices, duplicate_deployment,
  invalid_deployment_id,
}
use deployments.Store.Exec.{Exec, pure, raise, ◌>>=◌}
use deployments.Store.Mongo.{Mongo}
use deployments.App.Creation
use deployments.App.Creation.{Inventory}
use deployments.App.Queries
use deployments.App.Abort
use deployments.Model.Text.{trim_suffix}
use deployments.Http.Request.{Request, Payload, Parsed, invalid, parsed}
use deployments.Http.View.{
  Handler, Reply, app, definition, reply, also, render_error, render_internal_error,
  render_success_get, render_success_post, render_empty_success_response, invalid_body,
  missing_group_name, device_id_missing, deployment_id_missing, unexpected_deployment_status,
  deployment_already_finished,
}
use deployments.Http.Calls.{call, with_uuid, as_tenant, found_reply, object_reply}
use deployments.Http.Artifacts.{tenant_of}

abbrev checked_constructor :
    DeploymentConstructor → Option DefinitionError → Parsed DeploymentConstructor
checked_constructor c none = parsed c
checked_constructor c (some e) = invalid (definition e)

-- getDeploymentConstructorFromBody: the group is written through the pointer of the payload
unfoldable pub get_deployment_constructor_from_body :
    Rules → Payload DeploymentConstructor → String → Exec (Parsed DeploymentConstructor)
get_deployment_constructor_from_body rules none group = pure (invalid invalid_body)
get_deployment_constructor_from_body rules (some none) group = raise nil_dereference
get_deployment_constructor_from_body rules (some (some c)) group =
    let c' : DeploymentConstructor = record c { group = group } in
    pure (checked_constructor c' (validate_new rules c'))

abbrev created_reply : {A : Type 0} → String → Result String → Reply A
created_reply path (ok id) = render_success_post path id
created_reply path (err no_artifact) = render_error (app no_artifact) 422
created_reply path (err no_devices) = render_error (app no_devices) 400
created_reply path (err e) = render_internal_error

abbrev configured_reply : {A : Type 0} → Result String → Reply A
configured_reply (ok id) = render_success_post "./deployments" id
configured_reply (err duplicate_deployment) = render_error (app duplicate_deployment) 409
configured_reply (err invalid_deployment_id) = render_error (app invalid_deployment_id) 400
configured_reply (err e) = render_internal_error

-- parseDeviceConfigurationDeploymentPathParams: tenant, device and deployment
unfoldable pub parse_device_configuration_deployment_path_params :
    Request → Parsed (String × String × String)
parse_device_configuration_deployment_path_params request =
    if request.param "device_id" == ""
    then invalid device_id_missing
    else if request.param "deployment_id" == ""
    then invalid deployment_id_missing
    else parsed (request.param "tenant", request.param "device_id", request.param "deployment_id")

-- Validate of a ConfigurationDeploymentConstructor
unfoldable pub validate_configuration : Rules → ConfigurationDeploymentConstructor → Bool
validate_configuration rules c =
    rules.required c.name && rules.length_in 1 4096 c.name && rules.required c.configuration

-- getConfigurationDeploymentConstructorFromBody
unfoldable pub get_configuration_deployment_constructor_from_body :
    Rules
    → Payload ConfigurationDeploymentConstructor
    → Exec (Parsed ConfigurationDeploymentConstructor)
get_configuration_deployment_constructor_from_body rules none = pure (invalid invalid_body)
get_configuration_deployment_constructor_from_body rules (some none) = raise nil_dereference
get_configuration_deployment_constructor_from_body rules (some (some c)) =
    if validate_configuration rules c then pure (parsed c) else pure (invalid invalid_body)

module _ (mongo : Mongo) (rules : Rules) where
  abbrev create_parsed :
      Inventory → ℕ → Option String → String → Parsed DeploymentConstructor → Handler (Unit {0})
  create_parsed inventory fuel identity path (invalid m) = reply (render_error m 400)
  create_parsed inventory fuel identity path (parsed c) = do
    r ← call (Creation.create_deployment inventory mongo rules fuel identity (some c))
    reply (created_reply (trim_suffix path (append "/group/" c.group)) r)

  -- createDeployment
  unfoldable pub create_deployment :
      Inventory → ℕ → Request → Payload DeploymentConstructor → String → Handler (Unit {0})
  create_deployment inventory fuel request payload group = do
    constructor ← get_deployment_constructor_from_body rules payload group
    create_parsed inventory fuel (tenant_of request.identity) request.path constructor

  unfoldable pub post_deployment :
      Inventory → ℕ → Request → Payload DeploymentConstructor → Handler (Unit {0})
  post_deployment inventory fuel request payload =
      create_deployment inventory fuel request payload ""

  -- Without a name the handler replies, and goes on.
  unfoldable pub deploy_to_group :
      Inventory → ℕ → Request → Payload DeploymentConstructor → Handler (Unit {0})
  deploy_to_group inventory fuel request payload =
      let group = request.param "name" in
      let created = create_deployment inventory fuel request payload group in
      if is_empty group then also (render_error missing_group_name 400) created else created

  abbrev configure_parsed :
      Inventory
      → String
      → String
      → String
      → Parsed ConfigurationDeploymentConstructor
      → Handler (Unit {0})
  configure_parsed inventory tenant device deployment (invalid m) = reply (render_error m 400)
  configure_parsed inventory tenant device deployment (parsed c) = do
    r ← call (
        as_tenant tenant (
          Creation.create_device_configuration_deployment inventory mongo rules (some tenant)
            (some c) device deployment))
    reply (configured_reply r)

  abbrev configure_at :
      Inventory
      → Payload ConfigurationDeploymentConstructor
      → Parsed (String × String × String)
      → Handler (Unit {0})
  configure_at inventory payload (invalid m) = reply (render_error m 400)
  configure_at inventory payload (parsed (tenant, device, deployment)) = do
    constructor ← get_configuration_deployment_constructor_from_body rules payload
    configure_parsed inventory tenant device deployment constructor

  unfoldable pub post_device_configuration_deployment :
      Inventory → Request → Payload ConfigurationDeploymentConstructor → Handler (Unit {0})
  post_device_configuration_deployment inventory request payload =
      configure_at inventory payload (parse_device_configuration_deployment_path_params request)

  -- the deployment that the call gives is never a nil pointer
  unfoldable pub get_deployment : Request → Handler Deployment
  get_deployment request =
      with_uuid rules (request.param "id")
        (do r ← call (Queries.get_deployment mongo (request.param "id")); reply (object_reply r))

  unfoldable pub get_deployment_stats : Request → Handler Stats
  get_deployment_stats request =
      with_uuid rules (request.param "id") (do
        r ← call (Queries.get_deployment_stats mongo (request.param "id"))
        reply (found_reply r))

  abbrev device_list_reply : Result Deployment → Reply (List String)
  device_list_reply (err e) = render_internal_error
  device_list_reply (ok d) = render_success_get d.device_list

  unfoldable pub get_deployment_device_list : Request → Handler (List String)
  get_deployment_device_list request =
      with_uuid rules (request.param "id") (do
        r ← call (Queries.get_deployment mongo (request.param "id"))
        reply (device_list_reply r))

  -- An abort that fails gets two replies.
  abbrev aborted_replies : Result (Unit {0}) → Handler (Unit {0})
  aborted_replies (err e) = also render_internal_error (reply render_empty_success_response)
  aborted_replies (ok done) = reply render_empty_success_response

  abbrev abort_unless : String → Result Bool → Handler (Unit {0})
  abort_unless id (err e) = reply render_internal_error
  abort_unless id (ok true) = reply (render_error deployment_already_finished 422)
  abort_unless id (ok false) = do r ← call (Abort.abort_deployment mongo id); aborted_replies r

  -- what follows the checks of the request
  unfoldable pub abort_unfinished : String → Handler (Unit {0})
  abort_unfinished id = do r ← call (Abort.is_deployment_finished mongo id); abort_unless id r

  abbrev abort_asked : String → Option Status → Handler (Unit {0})
  abort_asked id none = reply (render_error invalid_body 400)
  abort_asked id (some status) =
      if not (Status.status_eq status Status.aborted)
      then also (render_error unexpected_deployment_status 400) (abort_unfinished id)
      else abort_unfinished id

  -- The payload is the status that it asks for. After the reply to another status than "aborted"
  -- the handler goes on.
  unfoldable pub abort_deployment : Request → Option Status → Handler (Unit {0})
  unfolding abort_unfinished
  abort_deployment request payload =
      with_uuid rules (request.param "id") (abort_asked (request.param "id") payload)

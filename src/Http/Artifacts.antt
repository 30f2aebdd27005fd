-- ===== src/Http/Artifacts.antt =====
-- The handlers of artifacts (api/http/api_deployments.go). `context` is what the call's context holds
-- of storage settings; the times of the links come from the configuration of the service.
use deployments.Shared.{ℕ, String, Bool, true, false, not, Option, none, some, ◌==◌}
use deployments.Shared.Tests.{if◌then◌else◌}
use deployments.Shared.Int.{ℤ, pos}
use deployments.Model.Image.{Image, validate_image_meta}
use deployments.Model.Link.{Link, UploadLink}
use deployments.Model.Limit.{Limit, is_valid_limit}
use deployments.Store.Errors.{
  Result, ok, err, image_meta_not_found, image_in_active_deployment, image_used_in_any_deployment,
  upload_not_found, artifact_not_unique, model_parsing_artifact_failed, invalid_metadata,
  conflicting_depends, nil_dereference, read_error,
}
use deployments.Store.Exec.{Exec, pure, raise, ◌>>=◌}
use deployments.Store.Mongo.{Mongo}
use deployments.App.Objects.{ObjectStorage, Library, Settings}
use deployments.App.Artifacts
use deployments.App.Uploads
use deployments.App.Queries
use deployments.Http.Multipart.{Form, MultipartUploadMsg, Reader, parse_multipart}
use deployments.Http.Request.{Request, Identity, Payload, Parsed, invalid, parsed}
use deployments.Http.View.{
  Handler, Reply, nothing, app, reply, render_error, render_internal_error, render_error_not_found,
  render_success_get, render_success_post, render_empty_success_response, invalid_body,
  unsupported_limit, artifact_used_in_active_deployment, missing_tenant,
}
use deployments.Http.Calls.{call, cause, with_uuid, as_tenant, found_reply, object_reply}

-- the tenant of the request's identity
abbrev pub tenant_of : Option Identity → Option String
tenant_of none = none
tenant_of (some i) = some i.tenant

-- limitResponse
pub record LimitResponse : Type 0 where
  pub limit : ℕ
  pub usage : ℕ

abbrev limit_reply : Result Limit → Reply LimitResponse
limit_reply (err e) = render_internal_error
limit_reply (ok limit) = render_success_get (record { limit = limit.value; usage = 0 })

abbrev completed_reply : {A B : Type 0} → Result B → Reply A
completed_reply (ok b) = record { status = 202; body = nothing }
completed_reply (err e) = elim (cause e) [
  | upload_not_found ↦ render_error_not_found
  | _ ↦ render_internal_error
]

abbrev deleted_reply : {A B : Type 0} → Result B → Reply A
deleted_reply (ok b) = render_empty_success_response
deleted_reply (err image_meta_not_found) = render_error_not_found
deleted_reply (err image_in_active_deployment) = render_error artifact_used_in_active_deployment 409
deleted_reply (err e) = render_internal_error

abbrev edited_reply : {A : Type 0} → Result Bool → Reply A
edited_reply (err image_used_in_any_deployment) =
    render_error (app image_used_in_any_deployment) 422
edited_reply (err e) = render_internal_error
edited_reply (ok false) = render_error_not_found
edited_reply (ok true) = render_empty_success_response

abbrev created_reply : {A : Type 0} → Bool → String → Result String → Reply A
created_reply limits path (ok id) = render_success_post path id
created_reply limits path (err e) = elim (cause e) [
  | conflicting_depends ↦ render_error (app conflicting_depends) 409
  | artifact_not_unique ↦ render_error (app artifact_not_unique) 422
  | model_parsing_artifact_failed ↦ render_error (app e) 400
  | invalid_metadata ↦ render_error (app invalid_metadata) 400
  | read_error ↦ if limits then render_error (app read_error) 400 else render_internal_error
  | _ ↦ render_internal_error
]

-- getImageMetaFromBody: the description; validating a nil pointer panics
unfoldable pub get_image_meta_from_body : Library → Payload String → Exec (Parsed String)
get_image_meta_from_body library none = pure (invalid invalid_body)
get_image_meta_from_body library (some none) = raise nil_dereference
get_image_meta_from_body library (some (some description)) =
    if validate_image_meta library.rules description
    then pure (parsed description)
    else pure (invalid invalid_body)

module _ (mongo : Mongo) (objects : ObjectStorage) (library : Library) where
  unfoldable pub get_limit : Request → Handler LimitResponse
  get_limit request =
      if not (is_valid_limit (request.param "name"))
      then reply (render_error unsupported_limit 400)
      else do r ← call (Queries.get_limit mongo (request.param "name")); reply (limit_reply r)

  unfoldable pub get_image : Request → Handler Image
  get_image request =
      with_uuid library.rules (request.param "id")
        (do r ← call (Artifacts.get_image mongo (request.param "id")); reply (found_reply r))

  unfoldable pub download_link : Option Settings → ℕ → Request → Handler Link
  download_link context expire request = with_uuid library.rules (request.param "id") (do
    r ← call (
        Artifacts.download_link mongo objects library context (tenant_of request.identity)
          (request.param "id") expire)
    reply (found_reply r))

  -- `skip` is the configuration's choice not to verify uploads
  unfoldable pub upload_link : Option Settings → ℕ → Bool → Request → Handler UploadLink
  upload_link context expire skip request = do
    r ←
        call (
          Uploads.upload_link mongo objects library context (tenant_of request.identity) expire
            skip)
    reply (object_reply r)

  unfoldable pub complete_upload : Option Settings → Bool → Request → Handler (Unit {0})
  complete_upload context skip request = do
    r ← call (
        Uploads.complete_upload mongo objects library context (tenant_of request.identity)
          (request.param "id") skip)
    reply (completed_reply r)

  unfoldable pub delete_image : Option Settings → Request → Handler (Unit {0})
  delete_image context request = with_uuid library.rules (request.param "id") (do
    r ← call (
        Artifacts.delete_image mongo objects library context (tenant_of request.identity)
          (request.param "id"))
    reply (deleted_reply r))

  abbrev edit_parsed : String → Parsed String → Handler (Unit {0})
  edit_parsed id (invalid m) = reply (render_error m 400)
  edit_parsed id (parsed description) = do
    r ← call (Artifacts.edit_image mongo library id description)
    reply (edited_reply r)

  unfoldable pub edit_image : Request → Payload String → Handler (Unit {0})
  edit_image request payload =
      with_uuid library.rules (request.param "id")
        (do meta ← get_image_meta_from_body library payload; edit_parsed (request.param "id") meta)

  abbrev create_parsed :
      (Reader → String)
      → (Reader → Bool)
      → Option Settings
      → Option String
      → String
      → Parsed MultipartUploadMsg
      → Handler (Unit {0})
  create_parsed stream limits context identity path (invalid m) = reply (render_error m 400)
  create_parsed stream limits context identity path (parsed msg) = elim msg.artifact_reader [
    | none ↦ raise nil_dereference
    | some reader ↦ (do
      r ← call (
          Artifacts.create_image mongo objects library context identity msg.artifact_id
            msg.description (stream reader))
      reply (created_reply (limits reader) path r))
  ]

  -- newImageWithContext: `stream` is the text for the content behind a reader in the library's
  -- calls, and `limits` says that reading it ends with one of the errors of the two readers. A form
  -- of `none` is a request that has no form.
  unfoldable pub new_image_with_context :
      (String → String)
      → ℤ
      → (Reader → String)
      → (Reader → Bool)
      → Option Settings
      → Option String
      → Request
      → Option Form
      → Handler (Unit {0})
  new_image_with_context to_lower limit stream limits context identity request none =
      reply (render_error invalid_body 400)
  new_image_with_context to_lower limit stream limits context identity request (some form) =
      let msg : MultipartUploadMsg = record {
        description = "";
        artifact_id = "";
        artifact_reader = none;
      } in
      create_parsed stream limits context identity request.path
        (parse_multipart library.rules to_lower limit form msg (pos 0))

  -- NewImage
  unfoldable pub new_image :
      (String → String)
      → ℤ
      → (Reader → String)
      → (Reader → Bool)
      → Option Settings
      → Request
      → Option Form
      → Handler (Unit {0})
  new_image to_lower limit stream limits context request form =
      new_image_with_context to_lower limit stream limits context (tenant_of request.identity)
        request form

  -- the tenant "default" keeps the request's own identity
  unfoldable pub new_image_for_tenant_handler :
      (String → String)
      → ℤ
      → (Reader → String)
      → (Reader → Bool)
      → Option Settings
      → Request
      → Option Form
      → Handler (Unit {0})
  new_image_for_tenant_handler to_lower limit stream limits context request form =
      let tenant = request.param "tenant" in
      if tenant == ""
      then reply (render_error missing_tenant 400)
      else if not (tenant == "default")
      then as_tenant tenant
          (new_image_with_context to_lower limit stream limits context (some tenant) request form)
      else new_image to_lower limit stream limits context request form

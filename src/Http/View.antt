-- ===== src/Http/View.antt =====
-- What a handler writes to its response (utils/restutil/view/view.go, and RestErrWithLog of the
-- library, which writes the same). A handler that goes on after a reply writes another one; the
-- client gets the status of the first.
use Prim.Native.String.{◌++◌ as append}
use deployments.Shared.{ℕ, String, List, [], ◌∷◌}
use deployments.Model.Deployment.{DefinitionError}
use deployments.Model.Release.{TagError, NotesError}
use deployments.Store.Errors.{Error}
use deployments.Store.Exec.{Exec, pure, ◌>>=◌}
use deployments.Model.Text.{trim_prefix}

-- the errors of this layer, and those that come from below
pub data Message : Type 0 where
  id_not_uuid empty_id unsupported_limit invalid_body invalid_schema not_found : Message
  artifact_used_in_active_deployment missing_group_name device_id_missing : Message
  deployment_id_missing missing_identity unexpected_deployment_status : Message
  deployment_already_finished hostname_not_configured empty_name : Message
  missing_tenant invalid_sort_direction unknown_status unknown_type invalid_timestamp : Message
  artifact_file_missing artifact_file_too_large invalid_size internal_error : Message
  invalid_page too_many_per_page link_expired bad_parameters bad_signature : Message
  definition : DefinitionError → Message
  tags : TagError → Message
  notes : NotesError → Message
  app : Error → Message

pub data Body (A : Type 0) : Type 0 where
  nothing : Body A
  message : Message → Body A
  location : String → Body A
  object : A → Body A

pub record Reply (A : Type 0) : Type 0 where
  pub status : ℕ
  pub body : Body A

abbrev pub Handler : Type 0 → Type 0
Handler A = Exec (List (Reply A))

-- RenderError
unfoldable pub render_error : {A : Type 0} → Message → ℕ → Reply A
render_error m status = record { status = status; body = message m }

-- RenderInternalError
unfoldable pub render_internal_error : {A : Type 0} → Reply A
render_internal_error = record { status = 500; body = message internal_error }

-- RenderErrorNotFound
unfoldable pub render_error_not_found : {A : Type 0} → Reply A
unfolding render_error
render_error_not_found = render_error not_found 404

-- RenderSuccessPost, at the path of the request
unfoldable pub render_success_post : {A : Type 0} → String → String → Reply A
render_success_post path id = record {
  status = 201;
  body = location (append (append (append "." (trim_prefix (trim_prefix path ".") "/api")) "/") id);
}

-- RenderSuccessGet
unfoldable pub render_success_get : {A : Type 0} → A → Reply A
render_success_get a = record { status = 200; body = object a }

-- RenderEmptySuccessResponse, RenderSuccessDelete, RenderSuccessPut and RenderNoUpdateForDevice
unfoldable pub render_empty_success_response : {A : Type 0} → Reply A
render_empty_success_response = record { status = 204; body = nothing }

-- a reply that ends the handler
abbrev pub reply : {A : Type 0} → Reply A → Handler A
reply r = pure (r ∷ [])

-- a reply after which the handler goes on
abbrev pub also : {A : Type 0} → Reply A → Handler A → Handler A
also r rest = do replies ← rest; pure (r ∷ replies)

-- what the client sees
unfoldable pub http_status : {A : Type 0} → List (Reply A) → ℕ
http_status [] = 200
http_status (r ∷ rs) = r.status

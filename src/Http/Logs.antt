-- ===== src/Http/Logs.antt =====
-- The handlers of the logs of device deployments (PutDeploymentLogForDevice and
-- GetDeploymentLogForDevice of api/http/api_deployments.go, RenderDeploymentLog of
-- utils/restutil/view/view.go). `time_text` is the text of a time.
use Prim.Native.String.{◌++◌ as append}
use deployments.Shared.{ℕ, String, Option, none, some, List, [], ◌∷◌, ◌==◌}
use deployments.Shared.Tests.{if◌then◌else◌}
use deployments.Model.Text.{trim_suffix}
use deployments.Model.Validation.{Rules}
use deployments.Model.Log.{LogMessage, DeploymentLog, message_to_string, unmarshal_messages}
use deployments.Store.Errors.{Result, ok, err, deployment_not_found}
use deployments.Store.Exec.{◌>>=◌}
use deployments.Store.Mongo.{Mongo}
use deployments.App.Logs
use deployments.Http.Request.{Request}
use deployments.Http.View.{
  Handler, Reply, app, reply, render_error, render_internal_error, render_error_not_found,
  render_success_get, render_empty_success_response, invalid_body, missing_identity,
}
use deployments.Http.Calls.{call}

abbrev with_newline : String → String
with_newline s = if trim_suffix s "\n" == s then append s "\n" else s

abbrev lines_of : (ℕ → String) → List LogMessage → String
lines_of time_text [] = ""
lines_of time_text (m ∷ ms) =
    append (with_newline (message_to_string time_text m)) (lines_of time_text ms)

-- RenderDeploymentLog
unfoldable pub render_deployment_log : (ℕ → String) → DeploymentLog → Reply String
render_deployment_log time_text log = render_success_get (lines_of time_text log.messages)

abbrev log_saved_reply : Result (Unit {0}) → Reply (Unit {0})
log_saved_reply (ok done) = render_empty_success_response
log_saved_reply (err deployment_not_found) = render_error (app deployment_not_found) 404
log_saved_reply (err e) = render_internal_error

abbrev log_reply : (ℕ → String) → Result (Option DeploymentLog) → Reply String
log_reply time_text (err e) = render_internal_error
log_reply time_text (ok none) = render_error_not_found
log_reply time_text (ok (some log)) = render_deployment_log time_text log

module _ (mongo : Mongo) where
  -- the messages of the payload are read by the log and by themselves
  abbrev read_messages : Rules → Option (List LogMessage) → Option (List LogMessage)
  read_messages rules none = none
  read_messages rules (some ms) = unmarshal_messages rules ms

  -- PutDeploymentLogForDevice; the payload is `none` if it cannot be decoded
  unfoldable pub put_deployment_log_for_device :
      Rules → Request → Option (List LogMessage) → Handler (Unit {0})
  put_deployment_log_for_device rules request payload = elim request.identity [
    | none ↦ reply (render_error missing_identity 400)
    | some idata ↦ elim (read_messages rules payload) [
      | none ↦ reply (render_error invalid_body 400)
      | some ms ↦ do
        r ← call (Logs.save_device_deployment_log mongo rules idata.subject (request.param "id") ms)
        reply (log_saved_reply r)
    ]
  ]

  unfoldable pub get_deployment_log_for_device : (ℕ → String) → Request → Handler String
  get_deployment_log_for_device time_text request = do
    r ← call (Logs.get_device_deployment_log mongo (request.param "devid") (request.param "id"))
    reply (log_reply time_text r)

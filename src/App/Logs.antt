-- ===== src/App/Logs.antt =====
-- The logs of device deployments in the application layer (SaveDeviceDeploymentLog and
-- GetDeviceDeploymentLog of app/app.go).
use deployments.Shared.{String, true, not, Option, List}
use deployments.Model.Validation.{Rules}
use deployments.Model.Log.{LogMessage, DeploymentLog, validate_log}
use deployments.Store.Errors.{wrapped, invalid_log, deployment_not_found}
use deployments.Store.Exec.{Exec, refuse_if, ◌>>=◌, ◌>>◌}
use deployments.Store.Mongo.{Mongo}
use deployments.Store.Devices
use deployments.Store.Logs
use deployments.App.Queries

abbrev pub log_for : String → String → List LogMessage → DeploymentLog
log_for device_id deployment_id ms = record {
  device_id = device_id;
  deployment_id = deployment_id;
  messages = ms;
}

module _ (mongo : Mongo) where
  unfoldable pub save_device_deployment_log :
      Rules → String → String → List LogMessage → Exec (Unit {0})
  save_device_deployment_log rules device_id deployment_id ms = do
    let log = log_for device_id deployment_id ms
    refuse_if (not (validate_log rules log)) (wrapped invalid_log)
    has ← Queries.has_deployment_for_device mongo deployment_id device_id
    refuse_if (not has) deployment_not_found
    Logs.save_device_deployment_log mongo rules log
    Devices.update_device_deployment_log_availability mongo device_id deployment_id true

  unfoldable pub get_device_deployment_log : String → String → Exec (Option DeploymentLog)
  get_device_deployment_log device_id deployment_id =
      Logs.get_device_deployment_log mongo device_id deployment_id

-- ===== src/Store/Logs.antt =====
-- The logs of device deployments in the database (SaveDeviceDeploymentLog and GetDeviceDeploymentLog
-- of store/mongo/datastore_mongo.go). The database keeps times to the millisecond.
pub mod Saved
mod Tests
use Prim.Native.Nat.{◌/◌}
use deployments.Shared.{
  ℕ, ◌*◌, String, Bool, true, false, not, ◌&&◌, Option, none, some, List, [], ◌∷◌, ◌++◌, map, ◌==◌,
}
use deployments.Model.Validation.{Rules}
use deployments.Model.Log.{LogMessage, DeploymentLog, validate_log}
use deployments.Store.Errors.{invalid_log}
use deployments.Store.World.{Database, milliseconds}
use deployments.Store.Exec.{Exec, refuse_if, command, query, ◌>>=◌, ◌>>◌}
use deployments.Store.Mongo.{Mongo, natural, find_one}

abbrev pub kept_message : LogMessage → LogMessage
kept_message m = record m { timestamp = milliseconds m.timestamp }

abbrev pub log_of : String → String → DeploymentLog → Bool
log_of device_id deployment_id l = l.device_id == device_id && l.deployment_id == deployment_id

abbrev pub with_messages : List LogMessage → DeploymentLog → DeploymentLog
with_messages ms l = record l { messages = map kept_message ms }

abbrev pub upsert_log :
    DeploymentLog → Database → Option (DeploymentLog × List DeploymentLog) → Unit {0} × Database
upsert_log log db none = (tt, record db { logs = db.logs ++ with_messages log.messages log ∷ [] })
upsert_log log db (some (old, ls)) = (tt, record db { logs = ls })

module _ (mongo : Mongo) where
  unfoldable pub save_device_deployment_log : Rules → DeploymentLog → Exec (Unit {0})
  save_device_deployment_log rules log = do
    refuse_if (not (validate_log rules log)) invalid_log
    command (λ db. upsert_log log db (
        mongo.update_one DeploymentLog (log_of log.device_id log.deployment_id)
          (with_messages log.messages) db.logs))

  unfoldable pub get_device_deployment_log : String → String → Exec (Option DeploymentLog)
  get_device_deployment_log device_id deployment_id =
      query (λ db. find_one mongo DeploymentLog (log_of device_id deployment_id) natural db.logs)

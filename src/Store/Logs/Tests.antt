-- ===== src/Store/Logs/Tests.antt =====
-- A log that is saved over another.
use deployments.Shared.{ℕ, ◌≤◌, ◌≡◌, refl, some, [], ◌∷◌, arith}
use deployments.Shared.Lists.{count}
use deployments.Model.Log.{DeploymentLog, validate_log, validate_message}
use deployments.Model.Samples.{rules}
use deployments.Store.Errors.{ok}
use deployments.Store.World.{World}
use deployments.Store.Exec.{◌>>◌}
use deployments.Store.Mongo.Reference.{reference}
use deployments.Store.Logs.{log_of, save_device_deployment_log, get_device_deployment_log}
use deployments.Store.Logs.Saved.{get-save}
use deployments.App.Samples.{world, database}

abbrev log_at : ℕ → DeploymentLog
log_at t = record {
  device_id = "one";
  deployment_id = "dep";
  messages = record { timestamp = some t; level = "error"; message = "no space" } ∷ [];
}

-- the database has a log of the device already
abbrev logged_world : World
logged_world = record world { db = record database { logs = log_at 1000000 ∷ [] } }

get-save_example :
    ((do
      save_device_deployment_log reference rules (log_at 7654321)
      get_device_deployment_log reference "one" "dep")
        logged_world).0
      ≡ ok (some (log_at 7000000))
    × (count
          (log_of "one" "dep")
          (save_device_deployment_log reference rules (log_at 7654321) logged_world).1.logs
        ≤ 1)
unfolding validate_log validate_message count
get-save_example = get-save reference (log_at 7654321) rules logged_world refl refl (ground arith)

-- ===== src/App/Abort.antt =====
-- The abort of a deployment: AbortDeployment and IsDeploymentFinished of app/app.go.
pub mod Counted
pub mod Steps
pub mod Closing
mod Tests
use deployments.Shared.{String, Bool}
use deployments.Shared.Tests.{is_none}
use deployments.Model.Deployment.{finished}
use deployments.Store.Exec.{Exec, pure, wrap, time_now, ◌>>=◌, ◌>>◌}
use deployments.Store.Mongo.{Mongo}
use deployments.Store.Devices
use deployments.Store.Deployments

module _ (mongo : Mongo) where
  unfoldable pub is_deployment_finished : String → Exec Bool
  is_deployment_finished deployment_id = do
    deployment ← wrap (Deployments.find_unfinished_by_id mongo deployment_id)
    pure (is_none deployment)

  unfoldable pub abort_deployment : String → Exec (Unit {0})
  abort_deployment deployment_id = do
    Devices.abort_device_deployments mongo deployment_id
    stats ← Devices.aggregate_device_deployment_by_status mongo deployment_id
    wrap (Deployments.update_stats mongo deployment_id stats)
    now ← time_now
    wrap (Deployments.set_deployment_status mongo deployment_id finished now)

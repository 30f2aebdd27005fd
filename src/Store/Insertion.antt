-- ===== src/Store/Insertion.antt =====
-- InsertDeviceDeployment of store/mongo/datastore_mongo.go, which writes both collections.
use deployments.Shared.{Bool}
use deployments.Shared.Tests.{if◌then◌else◌}
use deployments.Model.DeviceDeployment.{DeviceDeployment}
use deployments.Store.Exec.{Exec, pure, ◌>>◌}
use deployments.Store.Mongo.{Mongo}
use deployments.Store.Devices.{insert_device}
use deployments.Store.Deployments.{increment_deployment_device_count}

module _ (mongo : Mongo) where
  unfoldable pub insert_device_deployment : DeviceDeployment → Bool → Exec (Unit {0})
  insert_device_deployment dd increment = do
    insert_device mongo dd
    if increment then increment_deployment_device_count mongo dd.deployment_id 1 else pure tt

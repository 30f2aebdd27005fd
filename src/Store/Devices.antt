-- ===== src/Store/Devices.antt =====
-- The device deployments in the database: the operations on the collection "devices" of
-- store/mongo/datastore_mongo.go, and on the last statuses (datastore_mongo_last_status.go).
use deployments.Shared.{
  ℕ, suc, String, Bool, true, false, ◌&&◌, ◌||◌, Option, none, some, List, [], ◌∷◌, ◌==◌,
}
use deployments.Shared.Tests.{is_none, is_some, if◌then◌else◌, ltb}
use deployments.Shared.Lists.{any, take, drop, length}
use deployments.Shared.Int.{pos}
use deployments.Model.Status
use deployments.Model.Status.{Status}
use deployments.Model.Stats
use deployments.Model.Stats.{Stats}
use deployments.Model.Deployment.{is_empty}
use deployments.Model.Image.{Image}
use deployments.Model.Request.{DeploymentNextRequest}
use deployments.Model.DeviceDeployment.{
  DeviceDeployment, DeviceDeploymentState, DeviceDeploymentLastStatus, validate_state,
}
use deployments.Store.Errors.{
  duplicate_key, storage_invalid_id, storage_invalid_input, storage_not_found,
}
use deployments.Store.World.{Database}
use deployments.Store.Exec.{
  Exec, pure, refuse_if, or_raise, command, query, time_now, tenant_of_request, ◌>>=◌, ◌>>◌,
}
use deployments.Store.Mongo.{Mongo, Sort, natural, ascending, descending, find_one}

-- `{"deleted": {"$exists": false}}`
abbrev pub present : DeviceDeployment → Bool
present d = is_none d.deleted

-- a time as a sort key: a missing one comes first
abbrev pub time_key : Option ℕ → ℕ
time_key none = 0
time_key (some t) = suc t

abbrev pub created_key : DeviceDeployment → ℕ
created_key d = time_key d.created

-- the device's live documents in a deployment
abbrev pub of_device : String → String → DeviceDeployment → Bool
of_device device_id deployment_id d =
    d.device_id == device_id && d.deployment_id == deployment_id && present d

abbrev pub replace_devices :
    Database
    → Option (DeviceDeployment × List DeviceDeployment)
    → Option DeviceDeployment × Database
replace_devices db none = (none, db)
replace_devices db (some (d, ds)) = (some d, record db { devices = ds })

abbrev pub add_device : Database → Option (List DeviceDeployment) → Bool × Database
add_device db none = (false, db)
add_device db (some ds) = (true, record db { devices = ds })

-- what an update of the status writes
abbrev pub with_state : DeviceDeploymentState → DeviceDeployment → DeviceDeployment
with_state s d = record d {
  status = s.status;
  active = Status.active s.status;
  finished = if is_some s.finish_time then s.finish_time else d.finished;
  sub_state = if is_empty s.sub_state then d.sub_state else s.sub_state;
}

abbrev pub with_status : Status → DeviceDeployment → DeviceDeployment
with_status s d = record d { status = s; active = false }

-- `{"image._id": image_id}`
abbrev pub uses_image : String → Option Image → Bool
uses_image image_id none = false
uses_image image_id (some i) = i.id == image_id

unfoldable pub set_all : List (Status × ℕ) → Stats → Stats
set_all [] s = s
set_all ((k, n) ∷ rest) s = set_all rest (Stats.set s k (pos n))

module _ (mongo : Mongo) where
  unfoldable pub find_device :
      (DeviceDeployment → Bool) → Sort DeviceDeployment → Exec (Option DeviceDeployment)
  find_device p s = query (λ db. find_one mongo DeviceDeployment p s db.devices)

  unfoldable pub update_device :
      (DeviceDeployment → Bool)
      → (DeviceDeployment → DeviceDeployment)
      → Exec (Option DeviceDeployment)
  update_device p u =
      command (λ db. replace_devices db (mongo.update_one DeviceDeployment p u db.devices))

  unfoldable pub update_devices :
      (DeviceDeployment → Bool) → (DeviceDeployment → DeviceDeployment) → Exec (Unit {0})
  update_devices p u =
      command
        (λ db. (tt, record db { devices = mongo.update_many DeviceDeployment p u db.devices }))

  -- InsertOne of InsertDeviceDeployment
  unfoldable pub insert_device : DeviceDeployment → Exec (Unit {0})
  insert_device dd = do
    added ←
        command (λ db. add_device db (mongo.insert_one DeviceDeployment (λ d. d.id) dd db.devices))
    refuse_if (if added then false else true) duplicate_key

  unfoldable pub exist_assigned_image_with_id_and_statuses : String → List Status → Exec Bool
  unfolding find_device
  exist_assigned_image_with_id_and_statuses image_id statuses = do
    refuse_if (is_empty image_id) storage_invalid_id
    found ←
        find_device
          (λ d.
            uses_image image_id d.image
            && (if ltb 0 (length statuses) then any (Status.status_eq d.status) statuses else true))
          natural
    pure (is_some found)

  unfoldable pub find_oldest_active_device_deployment : String → Exec (Option DeviceDeployment)
  unfolding find_device
  find_oldest_active_device_deployment device_id = do
    refuse_if (is_empty device_id) storage_invalid_id
    find_device (λ d. d.active && d.device_id == device_id && present d) (ascending created_key)

  unfoldable pub find_latest_inactive_device_deployment : String → Exec (Option DeviceDeployment)
  unfolding find_device
  find_latest_inactive_device_deployment device_id = do
    refuse_if (is_empty device_id) storage_invalid_id
    find_device (λ d. (if d.active then false else true) && d.device_id == device_id && present d)
        (descending created_key)

  -- the status before the update
  unfoldable pub update_device_deployment_status :
      String → String → DeviceDeploymentState → Exec Status
  unfolding update_device
  update_device_deployment_status device_id deployment_id state = do
    refuse_if (is_empty device_id || is_empty deployment_id) storage_invalid_id
    refuse_if (if validate_state state then false else true) storage_invalid_input
    found ← update_device (of_device device_id deployment_id) (with_state state)
    old ← or_raise storage_not_found found
    pure old.status

  unfoldable pub update_device_deployment_log_availability :
      String → String → Bool → Exec (Unit {0})
  unfolding update_device
  update_device_deployment_log_availability device_id deployment_id log = do
    refuse_if (is_empty device_id || is_empty deployment_id) storage_invalid_id
    found ←
        update_device (of_device device_id deployment_id) (λ d. record d { is_log_available = log })
    refuse_if (is_none found) storage_not_found

  unfoldable pub save_device_deployment_request : String → DeploymentNextRequest → Exec (Unit {0})
  unfolding update_device
  save_device_deployment_request id request = do
    found ← update_device (λ d. d.id == id) (λ d. record d { request = some request })
    refuse_if (is_none found) storage_not_found

  unfoldable pub assign_artifact : String → String → Image → Exec (Unit {0})
  unfolding update_device
  assign_artifact device_id deployment_id artifact = do
    refuse_if (is_empty device_id || is_empty deployment_id) storage_invalid_id
    found ←
        update_device (of_device device_id deployment_id) (λ d. record d { image = some artifact })
    refuse_if (is_none found) storage_not_found

  unfoldable pub aggregate_device_deployment_by_status : String → Exec Stats
  unfolding set_all
  aggregate_device_deployment_by_status id = do
    refuse_if (is_empty id) storage_invalid_id
    results ← query (λ db.
        mongo.group_count DeviceDeployment Status Status.status_eq
          (λ d. d.deployment_id == id && present d) (λ d. d.status) db.devices)
    pure (set_all results Stats.new_stats)

  unfoldable pub has_deployment_for_device : String → String → Exec Bool
  unfolding find_device
  has_deployment_for_device deployment_id device_id = do
    found ←
        find_device (λ d. d.deployment_id == deployment_id && d.device_id == device_id && present d)
          natural
    pure (is_some found)

  unfoldable pub abort_device_deployments : String → Exec (Unit {0})
  unfolding update_devices
  abort_device_deployments deployment_id = do
    refuse_if (is_empty deployment_id) storage_invalid_id
    update_devices (λ d. d.deployment_id == deployment_id && d.active && present d)
        (with_status Status.aborted)

  unfoldable pub decommission_device_deployments : String → Exec (Unit {0})
  unfolding update_devices
  decommission_device_deployments device_id = do
    refuse_if (is_empty device_id) storage_invalid_id
    update_devices (λ d. d.device_id == device_id && d.active && present d)
        (with_status Status.decommissioned)

  -- DeleteMany of the last statuses of a device in the base database, where a request without a
  -- tenant has its own
  unfoldable pub forget_last_status : Bool → String → Database → Database
  forget_last_status true device_id db = record db {
    devices_last_status =
        mongo.delete_many DeviceDeploymentLastStatus (λ l. l.device_id == device_id)
          db.devices_last_status;
  }
  forget_last_status false device_id db = record db {
    base_last_status =
        mongo.delete_many DeviceDeploymentLastStatus (λ l. l.device_id == device_id)
          db.base_last_status;
  }

  unfoldable pub delete_device_deployments_history : String → Exec (Unit {0})
  unfolding update_devices
  delete_device_deployments_history device_id = do
    now ← time_now
    update_devices
        (λ d. d.device_id == device_id && (if d.active then false else true) && present d)
        (λ d. record d { deleted = some now })
    tenant ← tenant_of_request
    command (λ db. (tt, forget_last_status (is_empty tenant) device_id db))

  -- GetDeviceDeployment: the latest document of the device in the deployment
  unfoldable pub get_device_deployment : String → String → Bool → Exec DeviceDeployment
  unfolding find_device
  get_device_deployment deployment_id device_id include_deleted = do
    found ←
        find_device
          (λ d.
            d.device_id == device_id
            && d.deployment_id == deployment_id
            && (if include_deleted then true else present d))
          (descending created_key)
    or_raise storage_not_found found

  -- GetDeviceDeployments; an empty device id or no `active` sets no filter, a limit of 0 no limit
  unfoldable pub get_device_deployments :
      ℕ → ℕ → String → Option Bool → Bool → Exec (List DeviceDeployment)
  get_device_deployments skip limit device_id active include_deleted = query (λ db.
      let found =
        mongo.find DeviceDeployment
          (λ d.
            (if include_deleted then true else present d)
            && (if is_empty device_id then true else d.device_id == device_id)
            && elim active [
              | none ↦ true
              | some a ↦ (if a then d.active else if d.active then false else true)
            ])
          (descending created_key) db.devices in
      if ltb 0 limit then take limit (drop skip found) else drop skip found)

  -- SaveLastDeviceDeploymentStatus: the device's document is replaced, or inserted if there is none
  unfoldable pub save_last_device_deployment_status : DeviceDeployment → Exec (Unit {0})
  save_last_device_deployment_status dd w =
      command
        (λ db.
          let last : DeviceDeploymentLastStatus = record {
            device_id = dd.device_id;
            deployment_id = dd.deployment_id;
            device_deployment_id = dd.id;
            device_deployment_status = dd.status;
            tenant_id = w.tenant;
          } in
          (
            tt,
            record db {
              devices_last_status =
                  elim (mongo.update_one DeviceDeploymentLastStatus
                    (λ l. l.device_id == dd.device_id) (λ l. last) db.devices_last_status) [
                      | some (old, ls) ↦ ls
                      | none ↦ last ∷ db.devices_last_status
                    ];
            },
          ))
        w

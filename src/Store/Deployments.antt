-- ===== src/Store/Deployments.antt =====
-- The deployments in the database: the operations on the collection "deployments" of
-- store/mongo/datastore_mongo.go.
use deployments.Shared.{
  ℕ, ◌+◌, String, Bool, true, false, not, ◌&&◌, Option, none, some, List, [], ◌==◌,
}
use deployments.Shared.Tests.{is_none, is_some, if◌then◌else◌, ltb}
use deployments.Shared.Lists.{any, take, drop}
use deployments.Shared.Int.{ℤ, pos, negsuc, ◌+ℤ◌}
use deployments.Model.Status
use deployments.Model.Status.{Status}
use deployments.Model.Stats
use deployments.Model.Stats.{Stats}
use deployments.Model.Validation.{Rules}
use deployments.Model.Deployment
use deployments.Model.Deployment.{
  Deployment, DeploymentStatus, finished, is_empty, validate_deployment, new_deployment,
}
use deployments.Model.DeviceDeployment.{DeviceDeployment}
use deployments.Store.Errors.{
  duplicate_key, storage_invalid_id, storage_invalid_input, images_storage_invalid_artifact_name,
  invalid_document,
}
use deployments.Store.World.{Database, milliseconds}
use deployments.Store.Exec.{
  Exec, pure, refuse_if, wrap, command, query, time_now, new_uuid, ◌>>=◌, ◌>>◌,
}
use deployments.Store.Devices.{present, time_key}
use deployments.Store.Mongo.{Mongo, natural, ascending, find_one}

abbrev pub replace_deployments :
    Database → Option (Deployment × List Deployment) → Option Deployment × Database
replace_deployments db none = (none, db)
replace_deployments db (some (d, ds)) = (some d, record db { deployments = ds })

abbrev pub add_deployment : Database → Option (List Deployment) → Bool × Database
add_deployment db none = (false, db)
add_deployment db (some ds) = (true, record db { deployments = ds })

-- `$inc` on one counter
abbrev pub add_to : Stats → Status → ℤ → Stats
add_to s status n =
    Stats.set_key (Status.to_string status) (Stats.get_key (Status.to_string status) s +ℤ n) s

-- what UpdateStatsInc writes; from the null status it only counts up
abbrev pub move_count : Status → Status → Deployment → Deployment
move_count from to d = record d {
  stats =
      if Status.status_eq from Status.null
      then add_to d.stats to (pos 1)
      else add_to (add_to d.stats from (negsuc 0)) to (pos 1);
}

abbrev pub is_finished_status : DeploymentStatus → Bool
is_finished_status finished = true
is_finished_status _ = false

-- what SetDeploymentStatus writes
abbrev pub with_deployment_status : DeploymentStatus → ℕ → Deployment → Deployment
with_deployment_status status now d =
    if is_finished_status status
    then record d { active = false; status = status; finished_at = some now }
    else record d { active = true; status = status }

-- `$gt` on two times; it holds of no missing time
abbrev pub after : Option ℕ → Option ℕ → Bool
after (some a) (some b) = ltb b a
after _ _ = false

-- What the database gets of a deployment: MarshalBSON sets `active` from the status, and the devices,
-- the group and the choice of all devices are no fields of the document.
unfoldable pub stored_deployment : Deployment → Deployment
stored_deployment d = record d {
  constructor = record d.constructor { devices = []; all_devices = false; group = "" };
  created = milliseconds d.created;
  finished_at = milliseconds d.finished_at;
  active = not (is_finished_status d.status);
}

module _ (mongo : Mongo) where
  unfoldable pub find_deployment : (Deployment → Bool) → Exec (Option Deployment)
  find_deployment p = query (λ db. find_one mongo Deployment p natural db.deployments)

  unfoldable pub update_deployment :
      (Deployment → Bool) → (Deployment → Deployment) → Exec (Option Deployment)
  update_deployment p u =
      command (λ db. replace_deployments db (mongo.update_one Deployment p u db.deployments))

  -- InsertDeployment
  unfoldable pub insert_deployment : Rules → Deployment → Exec (Unit {0})
  insert_deployment rules d = do
    refuse_if (not (validate_deployment rules d)) invalid_document
    added ← command (λ db.
        add_deployment db
          (mongo.insert_one Deployment (λ e. e.id) (stored_deployment d) db.deployments))
    refuse_if (not added) duplicate_key

  unfoldable pub delete_deployment : String → Exec (Unit {0})
  delete_deployment id = do
    refuse_if (is_empty id) storage_invalid_id
    command (λ db. (
      tt,
      record db { deployments = mongo.delete_many Deployment (λ d. d.id == id) db.deployments },
    ))

  unfoldable pub find_deployment_by_id : String → Exec (Option Deployment)
  unfolding find_deployment
  find_deployment_by_id id = do
    refuse_if (is_empty id) storage_invalid_id
    find_deployment (λ d. d.id == id)

  unfoldable pub find_unfinished_by_id : String → Exec (Option Deployment)
  unfolding find_deployment
  find_unfinished_by_id id = do
    refuse_if (is_empty id) storage_invalid_id
    find_deployment (λ d. d.id == id && is_none d.finished_at)

  unfoldable pub increment_deployment_device_count : String → ℕ → Exec (Unit {0})
  unfolding update_deployment
  increment_deployment_device_count deployment_id increment = do
    update_deployment (λ d. d.id == deployment_id && is_some d.device_count)
        (λ d. record d {
          device_count = elim d.device_count [ none ↦ none | some n ↦ some (n + increment) ];
        })
    pure tt

  unfoldable pub set_deployment_device_count : String → ℕ → Exec (Unit {0})
  unfolding update_deployment
  set_deployment_device_count deployment_id count = do
    update_deployment (λ d. d.id == deployment_id && is_none d.device_count)
        (λ d. record d { device_count = some count })
    pure tt

  unfoldable pub device_count_by_deployment : String → Exec ℕ
  device_count_by_deployment id = query (λ db.
      mongo.count_documents DeviceDeployment (λ d. d.deployment_id == id && present d) db.devices)

  -- UpdateStats. The test reads a fresh deployment that holds only the statistics.
  unfoldable pub update_stats : String → Stats → Exec (Unit {0})
  unfolding update_deployment
  update_stats id stats = do
    refuse_if (is_empty id) storage_invalid_id
    created ← time_now
    uid ← new_uuid
    let deployment = record (new_deployment created uid) { stats = stats }
    found ←
        if Deployment.is_finished deployment
        then (do
          now ← time_now
          update_deployment (λ d. d.id == id)
              (λ d. record d { stats = stats; finished_at = some now }))
        else update_deployment (λ d. d.id == id) (λ d. record d { stats = stats })
    refuse_if (is_none found) storage_invalid_id

  unfoldable pub update_stats_inc : String → Status → Status → Exec (Unit {0})
  unfolding update_deployment
  update_stats_inc id from to = do
    refuse_if (is_empty id) storage_invalid_id
    refuse_if (is_none (Status.marshal_text to)) storage_invalid_input
    if Status.status_eq from to then pure tt else do
      found ← update_deployment (λ d. d.id == id) (move_count from to)
      refuse_if (is_none found) storage_invalid_id

  unfoldable pub increment_deployment_total_size : String → ℕ → Exec (Unit {0})
  unfolding update_deployment
  increment_deployment_total_size deployment_id increment = do
    update_deployment (λ d. d.id == deployment_id)
        (λ d. record d { total_size = d.total_size +ℤ pos increment })
    pure tt

  unfoldable pub find_newer_active_deployments : Option ℕ → ℕ → ℕ → Exec (List Deployment)
  find_newer_active_deployments created_after skip limit = wrap (
      query (λ db. take limit (
        drop skip (
          mongo.find Deployment (λ d. d.active && after d.created created_after)
            (ascending (λ d. time_key d.created)) db.deployments))))

  unfoldable pub set_deployment_status : String → DeploymentStatus → ℕ → Exec (Unit {0})
  unfolding update_deployment
  set_deployment_status id status now = do
    refuse_if (is_empty id) storage_invalid_id
    found ← update_deployment (λ d. d.id == id) (with_deployment_status status now)
    refuse_if (is_none found) storage_invalid_id

  unfoldable pub exist_unfinished_by_artifact_id : String → Exec Bool
  unfolding find_deployment
  exist_unfinished_by_artifact_id id = do
    refuse_if (is_empty id) storage_invalid_id
    found ← find_deployment (λ d. is_none d.finished_at && any (λ a. a == id) d.artifacts)
    pure (is_some found)

  unfoldable pub exist_unfinished_by_artifact_name : String → Exec Bool
  unfolding find_deployment
  exist_unfinished_by_artifact_name artifact_name = do
    refuse_if (is_empty artifact_name) images_storage_invalid_artifact_name
    found ←
        find_deployment (λ d. is_none d.finished_at && d.constructor.artifact_name == artifact_name)
    pure (is_some found)

  unfoldable pub update_deployments_with_artifact_name : String → List String → Exec (Unit {0})
  update_deployments_with_artifact_name artifact_name artifact_ids = command (λ db. (
    tt,
    record db {
      deployments =
          mongo.update_many Deployment
            (λ d. is_none d.finished_at && d.constructor.artifact_name == artifact_name)
            (λ d. record d { artifacts = artifact_ids }) db.deployments;
    },
  ))

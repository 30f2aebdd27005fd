-- ===== src/App/Progress/Writes.antt =====
-- The two writes of a progress report while the database answers: what each of them may do
-- (UpdateDeviceDeploymentStatus and UpdateStatsInc of store/mongo/datastore_mongo.go).
use deployments.Shared.{String, ◌≡◌, ◌⊎◌, inl, inr, Bool, true, false, ◌||◌, List, [], ◌==◌, arith}
use deployments.Shared.Tests.{Bool-cases, Option-cases, is_none}
use deployments.Shared.Lists.{All}
use deployments.Model.Status
use deployments.Model.Status.{Status, status_eq}
use deployments.Model.Deployment.{Deployment, is_empty}
use deployments.Model.DeviceDeployment.{DeviceDeployment, DeviceDeploymentState, validate_state}
use deployments.Store.Errors.{
  Error, Result, ok, err, storage_invalid_id, storage_invalid_input, storage_not_found,
}
use deployments.Store.World.{World}
use deployments.Store.Exec.{command-answered, ◌>>=◌}
use deployments.Store.Mongo.{Mongo, Replaced}
use deployments.Store.Devices
use deployments.Store.Devices.{of_device, with_state, replace_devices}
use deployments.Store.Deployments
use deployments.Store.Deployments.{move_count, replace_deployments}

pub named_status :
    (s : DeviceDeploymentState)
    → validate_state s ≡ true
    → is_none (Status.marshal_text s.status) ≡ false
unfolding validate_state Status.marshal_text
named_status s valid = ground arith

-- what an update of a device deployment's status may do while the database answers
abbrev pub StatusUpdate :
    String → String → DeviceDeploymentState → World → Result Status × World → Type 0
StatusUpdate device_id id state w r =
    ((e : Error) × (r ≡ (err e, w))
      × ((is_empty device_id || is_empty id) ≡ false
          → validate_state state ≡ true
          → All (λ d. of_device device_id id d ≡ false) w.devices))
    ⊎ ((old : DeviceDeployment) × (ds' : List DeviceDeployment) × Replaced (of_device device_id id)
          (with_state state) old w.devices ds'
        × (is_empty id ≡ false)
        × (validate_state state ≡ true)
        × (r ≡ (ok old.status, record w { db = record w.db { devices = ds' } })))

-- ... and an update of the counters
abbrev pub CountUpdate : String → Status → Status → World → Result (Unit {0}) × World → Type 0
CountUpdate id from to w r =
    ((status_eq from to ≡ true) × (r ≡ (ok tt, w)))
    ⊎ ((e : Error) × All (λ d. (d.id == id) ≡ false) w.deployments × (r ≡ (err e, w)))
    ⊎ ((dep : Deployment) × (deps' : List Deployment) × (status_eq from to ≡ false)
        × Replaced (λ d. d.id == id) (move_count from to) dep w.deployments deps'
        × (r ≡ (ok tt, record w { db = record w.db { deployments = deps' } })))

module _ (mongo : Mongo) where
  pub update_device-answered :
      (p : DeviceDeployment → Bool) (u : DeviceDeployment → DeviceDeployment) (w : World)
      → w.faults ≡ []
      → let r = replace_devices w.db (mongo.update_one DeviceDeployment p u w.devices) in
        Devices.update_device mongo p u w ≡ (ok r.0, record w { db = r.1 })
  unfolding Devices.update_device
  update_device-answered p u w calm = command-answered _ w calm

  pub update_deployment-answered :
      (p : Deployment → Bool) (u : Deployment → Deployment) (w : World)
      → w.faults ≡ []
      → let r = replace_deployments w.db (mongo.update_one Deployment p u w.deployments) in
        Deployments.update_deployment mongo p u w ≡ (ok r.0, record w { db = r.1 })
  unfolding Deployments.update_deployment
  update_deployment-answered p u w calm = command-answered _ w calm

  pub update_status-StatusUpdate :
      (device_id id : String) (state : DeviceDeploymentState) (w : World)
      → w.faults ≡ []
      → StatusUpdate device_id id state w
          (Devices.update_device_deployment_status mongo device_id id state w)
  unfolding Devices.update_device_deployment_status ◌>>=◌
  update_status-StatusUpdate device_id id state w calm =
      elim (Bool-cases (is_empty device_id || is_empty id)) [
        | inl unnamed ↦ inl (storage_invalid_id, rw unnamed, λ n v. absurd (cc))
        | inr named ↦ elim (Bool-cases (validate_state state)) [
          | inr invalid ↦ inl (storage_invalid_input, rw (named, invalid), λ n v. absurd (cc))
          | inl valid ↦
              let p = of_device device_id id in
              let u = with_state state in
              elim (Option-cases (mongo.update_one DeviceDeployment p u w.devices)) [
                | inl missing ↦ inl (
                  storage_not_found,
                  rw (named, valid, update_device-answered p u w calm, missing),
                  λ n v. mongo.update_one_none DeviceDeployment p u w.devices missing,
                )
                | inr (found, e) ↦ inr (
                  found.0,
                  found.1,
                  mongo.update_one_some DeviceDeployment p u w.devices found.0 found.1 e,
                  ground arith,
                  valid,
                  rw (named, valid, update_device-answered p u w calm, e),
                )
              ]
        ]
      ]

  pub update_stats_inc-CountUpdate :
      (id : String) (from to : Status) (w : World)
      → w.faults ≡ []
      → is_empty id ≡ false
      → is_none (Status.marshal_text to) ≡ false
      → CountUpdate id from to w (Deployments.update_stats_inc mongo id from to w)
  unfolding Deployments.update_stats_inc ◌>>=◌
  update_stats_inc-CountUpdate id from to w calm named valid =
      elim (Bool-cases (status_eq from to)) [
        | inl same ↦ inl (same, rw (named, valid, same))
        | inr differ ↦
            let p : Deployment → Bool = λ d. d.id == id in
            let u = move_count from to in
            elim (Option-cases (mongo.update_one Deployment p u w.deployments)) [
              | inl missing ↦ inr (
                  inl (
                    storage_invalid_id,
                    mongo.update_one_none Deployment p u w.deployments missing,
                    rw (named, valid, differ, update_deployment-answered p u w calm, missing),
                  ))
              | inr (found, e) ↦ inr (
                  inr (
                    found.0,
                    found.1,
                    differ,
                    mongo.update_one_some Deployment p u w.deployments found.0 found.1 e,
                    rw (named, valid, differ, update_deployment-answered p u w calm, e),
                  ))
            ]
      ]

-- ===== src/App/Progress/Moved.antt =====
-- A progress report that is accepted: the device and the counters move, and the report is answered
-- with success (UpdateDeviceDeploymentStatus of app/app.go).
use deployments.Shared.{
  ℕ, suc, String, ◌≡◌, refl, inl, inr, Bool, true, false, ◌||◌, List, [], ◌∷◌, ◌==◌, eq_iff, arith,
}
use deployments.Shared.Tests.{Bool-cases, Option-cases}
use deployments.Shared.Lists.{All, any}
use deployments.Model.Status
use deployments.Model.Status.{Status, null, aborted, decommissioned, status_eq}
use deployments.Model.Deployment
use deployments.Model.Deployment.{Deployment, DeploymentStatus, is_empty}
use deployments.Model.DeviceDeployment.{DeviceDeployment, DeviceDeploymentState, validate_state}
use deployments.Store.Errors.{ok}
use deployments.Store.World.{World}
use deployments.Store.Exec.{◌>>=◌}
use deployments.Store.Exec.Keeps.{Keeps, Keeps-command, keeps_rules}
use deployments.Store.Mongo.{Mongo, Replaced, natural, find_one}
use deployments.Store.Mongo.Laws.{Replaced-passes, Replaced-All, find_one-none, find_one-passes}
use deployments.Store.Devices
use deployments.Store.Devices.{of_device, with_state}
use deployments.Store.Deployments
use deployments.Store.Deployments.{move_count, with_deployment_status}
use deployments.Store.Live.{query-answered, none-any}
use deployments.App.Reindex.{reindex_device-Keeps, reindex_deployment-Keeps}
use deployments.App.Progress.{
  recalc_deployment_status, move_device, refresh_deployment, settle_device,
}
use deployments.App.Progress.Writes.{
  StatusUpdate, named_status, update_status-StatusUpdate, update_stats_inc-CountUpdate,
  update_deployment-answered,
}
use deployments.App.Progress.Outcome.{AllLive, has_live}

module _ (mongo : Mongo) where
  save_last-devices :
      (ds : List DeviceDeployment) (dd : DeviceDeployment)
      → Keeps false (λ db. db.devices ≡ ds) (Devices.save_last_device_deployment_status mongo dd)
  unfolding Devices.save_last_device_deployment_status
  save_last-devices ds dd = record { at = λ w h. (Keeps-command _ (λ db same. same)).at w h }

  -- a device's settlement always succeeds, since its errors are only logged ...
  pub settle-ok :
      (device_id : String) (dd : DeviceDeployment) (s : Status) (w : World)
      → (settle_device mongo device_id dd s w).0 ≡ ok tt
  unfolding settle_device ◌>>=◌
  settle-ok device_id dd s w = elim (Bool-cases (Status.active s)) [
    | inl active ↦ rw active
    | inr settled ↦ rw settled
  ]

  -- ... and moves no device
  pub settle-devices :
      (ds : List DeviceDeployment) (device_id : String) (dd : DeviceDeployment) (s : Status)
      → Keeps false (λ db. db.devices ≡ ds) (settle_device mongo device_id dd s)
  unfolding settle_device
  settle-devices ds device_id dd s =
      search (keeps_rules, save_last-devices, reindex_device-Keeps, reindex_deployment-Keeps)

  not_missing :
      (id : String) (ds : List Deployment)
      → any (λ (d : Deployment). d.id == id) ds ≡ true
      → All (λ d. (d.id == id) ≡ false) ds
      → ⊥
  not_missing id ds there missing =
      ground (arith, none-any (λ (d : Deployment). d.id == id) ds missing)

  set_deployment_status-ok :
      (id : String) (status : DeploymentStatus) (now : ℕ) (w : World)
      → w.faults ≡ []
      → is_empty id ≡ false
      → any (λ (d : Deployment). d.id == id) w.deployments ≡ true
      → (w' : World) × (Deployments.set_deployment_status mongo id status now w ≡ (ok tt, w'))
        × (w'.devices ≡ w.devices)
  unfolding Deployments.set_deployment_status ◌>>=◌
  set_deployment_status-ok id status now w calm named there =
      let p : Deployment → Bool = λ d. d.id == id in
      let u = with_deployment_status status now in
      elim (Option-cases (mongo.update_one Deployment p u w.deployments)) [
        | inl missing ↦ absurd (
            not_missing id w.deployments there
              (mongo.update_one_none Deployment p u w.deployments missing))
        | inr (found, e) ↦ (
          record w { db = record w.db { deployments = found.1 } },
          rw (named, update_deployment-answered mongo p u w calm, e),
          refl,
        )
      ]

  find_deployment-answered :
      (id : String) (w : World)
      → w.faults ≡ []
      → is_empty id ≡ false
      → Deployments.find_deployment_by_id mongo id w
        ≡ (ok (find_one mongo Deployment (λ d. d.id == id) natural w.deployments), w)
  unfolding Deployments.find_deployment_by_id ◌>>=◌
  find_deployment-answered id w calm named = rw (named, query-answered _ w calm)

  -- a deployment that is there is read back and written
  pub refresh_deployment-ok :
      (id : String) (w : World)
      → w.faults ≡ []
      → is_empty id ≡ false
      → any (λ (d : Deployment). d.id == id) w.deployments ≡ true
      → (w' : World) × (refresh_deployment mongo id w ≡ (ok tt, w')) × (w'.devices ≡ w.devices)
  unfolding refresh_deployment recalc_deployment_status ◌>>=◌
  refresh_deployment-ok id w calm named there =
      let p : Deployment → Bool = λ d. d.id == id in
      elim (Option-cases (find_one mongo Deployment p natural w.deployments)) [
        | inl missing ↦ absurd (
            not_missing id w.deployments there
              (find_one-none mongo p natural w.deployments missing))
        | inr (dep, found) ↦
            let same : dep.id ≡ id =
              (eq_iff dep.id id).0 (find_one-passes mongo p natural w.deployments dep found) in
            let (w', done, devices) =
              set_deployment_status-ok dep.id (Deployment.get_status dep) (w.times w.reads)
                (record w { reads = suc w.reads }) calm (rw same named) (rw same there) in
            (w', rw (find_deployment-answered id w calm named, found, done), devices)
      ]

  -- the deployments that the counters' update leaves hold the same ids
  any-Replaced :
      (id : String) (u : Deployment → Deployment) (dep : Deployment) (deps deps' : List Deployment)
      → ((e : Deployment) → (u e).id ≡ e.id)
      → Replaced (λ d. d.id == id) u dep deps deps'
      → any (λ (d : Deployment). d.id == id) deps' ≡ true
  unfolding any
  any-Replaced id u dep [] deps' same h = absurd h
  any-Replaced id u dep (e ∷ deps) deps' same (inl (here, found, result)) =
      rw result (rw (same e, here))
  any-Replaced id u dep (e ∷ deps) deps' same (inr (rest, later, result)) =
      rw result (ground (arith, any-Replaced id u dep deps rest same later))

  -- the two writes are made, for a device with a live device deployment in a deployment that is there
  pub move_device-ok :
      (id device_id : String) (state : DeviceDeploymentState) (current : Status) (w : World)
      → w.faults ≡ []
      → (is_empty device_id || is_empty id) ≡ false
      → validate_state state ≡ true
      → any (λ (d : Deployment). d.id == id) w.deployments ≡ true
      → has_live device_id id w.db ≡ true
      → AllLive device_id id current w.db
      → (old : DeviceDeployment) × (w' : World) × (old.status ≡ current)
        × Replaced (of_device device_id id) (with_state state) old w.devices w'.devices
        × (move_device mongo id device_id state w ≡ (ok tt, w'))
        × (w'.faults ≡ [])
        × (any (λ (d : Deployment). d.id == id) w'.deployments ≡ true)
  unfolding move_device ◌>>=◌
  move_device-ok id device_id state current w calm named valid there live all =
      status_done (update_status-StatusUpdate mongo device_id id state w calm)
    where
      status_done :
          StatusUpdate device_id id state w
            (Devices.update_device_deployment_status mongo device_id id state w)
          → (old : DeviceDeployment) × (w' : World) × (old.status ≡ current)
            × Replaced (of_device device_id id) (with_state state) old w.devices w'.devices
            × (move_device mongo id device_id state w ≡ (ok tt, w'))
            × (w'.faults ≡ [])
            × (any (λ (d : Deployment). d.id == id) w'.deployments ≡ true)
      status_done (inl (error, e, missing)) =
          absurd (ground (arith, none-any (of_device device_id id) w.devices (missing named valid)))
      status_done (inr (old, ds', replaced, named_id, v, e)) =
          let p = of_device device_id id in
          let was : old.status ≡ current =
            Replaced-All (λ d. of_device device_id id d ≡ true → d.status ≡ current) p
              (with_state state) old w.devices ds' replaced all
              (Replaced-passes p (with_state state) old w.devices ds' replaced) in
          let w1 : World = record w { db = record w.db { devices = ds' } } in
          elim (update_stats_inc-CountUpdate mongo id old.status state.status w1 calm named_id
            (named_status state v)) [
              | inl (same, c) ↦ (old, w1, was, replaced, rw (e, c), calm, there)
              | inr (inl (error, others, c)) ↦ absurd (not_missing id w.deployments there others)
              | inr (inr (dep, deps', differ, moved, c)) ↦ (
                old,
                record w1 { db = record w1.db { deployments = deps' } },
                was,
                replaced,
                rw (e, c),
                calm,
                any-Replaced id (move_count old.status state.status) dep w.deployments deps'
                    (λ d. refl) moved,
              )
            ]

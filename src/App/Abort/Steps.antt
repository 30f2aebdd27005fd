-- ===== src/App/Abort/Steps.antt =====
-- The writes of AbortDeployment, one by one (app/app.go).
use deployments.Shared.{
  ℕ, suc, ◌≡◌, refl, inl, inr, String, Bool, true, false, ◌&&◌, some, List, [], ◌∷◌, map, ◌==◌,
  arith,
}
use deployments.Shared.Tests.{if◌then◌else◌, Option-cases}
use deployments.Shared.Lists.{any}
use deployments.Model.Status
use deployments.Model.Status.{Status}
use deployments.Model.Stats
use deployments.Model.Stats.{Stats}
use deployments.Model.Deployment
use deployments.Model.Deployment.{Deployment, is_empty}
use deployments.Model.DeviceDeployment.{DeviceDeployment}
use deployments.Store.Errors.{ok}
use deployments.Store.World.{World}
use deployments.Store.Exec.{command-answered, ◌>>=◌}
use deployments.Store.Live.{query-answered, none-any}
use deployments.Store.Mongo.{Mongo, Replaced}
use deployments.Store.Devices
use deployments.Store.Devices.{present, with_status, set_all}
use deployments.Store.Deployments
use deployments.Store.Deployments.{with_deployment_status, replace_deployments}
use deployments.App.Progress.Writes.{update_deployment-answered}

-- a device deployment after the abort of its deployment
abbrev pub aborted_in : String → DeviceDeployment → DeviceDeployment
aborted_in id d =
    if d.deployment_id == id && d.active && present d then with_status Status.aborted d else d

module _ (mongo : Mongo) where
  update_found :
      (id : String) (u : Deployment → Deployment) (w : World)
      → w.faults ≡ []
      → any (λ (d : Deployment). d.id == id) w.deployments ≡ true
      → (dep : Deployment) × (deps' : List Deployment) × Replaced
          (λ d. d.id == id)
          u
          dep
          w.deployments
          deps'
        × (Deployments.update_deployment mongo (λ d. d.id == id) u w
            ≡ (ok (some dep), record w { db = record w.db { deployments = deps' } }))
  update_found id u w calm there =
      let p : Deployment → Bool = λ d. d.id == id in
      elim (Option-cases (mongo.update_one Deployment p u w.deployments)) [
        | inl missing ↦ absurd (
            ground (
              arith,
              none-any p w.deployments (mongo.update_one_none Deployment p u w.deployments missing),
            ))
        | inr (found, e) ↦ (
          found.0,
          found.1,
          mongo.update_one_some Deployment p u w.deployments found.0 found.1 e,
          rw (update_deployment-answered mongo p u w calm, e) refl,
        )
      ]

  pub still_there :
      (id : String) (u : Deployment → Deployment) (dep : Deployment) (deps deps' : List Deployment)
      → ((e : Deployment) → (u e).id ≡ e.id)
      → Replaced (λ d. d.id == id) u dep deps deps'
      → any (λ (d : Deployment). d.id == id) deps' ≡ true
  unfolding any
  still_there id u dep [] deps' same h = absurd h
  still_there id u dep (e ∷ deps) deps' same (inl (here, found, result)) =
      rw result (rw (same e) (ground arith))
  still_there id u dep (e ∷ deps) deps' same (inr (rest, later, result)) =
      rw result (ground (arith, still_there id u dep deps rest same later))

  pub update_stats-ok :
      (id : String) (stats : Stats) (w : World)
      → w.faults ≡ []
      → is_empty id ≡ false
      → any (λ (d : Deployment). d.id == id) w.deployments ≡ true
      → (dep : Deployment) × (deps' : List Deployment) × (r : ℕ) × (n : ℕ) × Replaced
          (λ d. d.id == id)
          (λ d. record d { stats = stats })
          dep
          w.deployments
          deps'
        × (Deployments.update_stats mongo id stats w
            ≡ (ok tt, record w { db = record w.db { deployments = deps' }; reads = r; drawn = n }))
  unfolding Deployments.update_stats Deployment.is_finished Deployment.new_deployment ◌>>=◌
  update_stats-ok id stats w calm named there =
      let w1 : World = record w { reads = suc w.reads; drawn = suc w.drawn } in
      let (dep, deps', replaced, e) =
        update_found id (λ d. record d { stats = stats }) w1 calm there in
      (dep, deps', suc w.reads, suc w.drawn, replaced, rw (named, e) refl)

  pub set_finished-ok :
      (id : String) (now : ℕ) (w : World)
      → w.faults ≡ []
      → is_empty id ≡ false
      → any (λ (d : Deployment). d.id == id) w.deployments ≡ true
      → (dep : Deployment) × (deps' : List Deployment) × Replaced
          (λ d. d.id == id)
          (with_deployment_status Deployment.finished now)
          dep
          w.deployments
          deps'
        × (Deployments.set_deployment_status mongo id Deployment.finished now w
            ≡ (ok tt, record w { db = record w.db { deployments = deps' } }))
  unfolding Deployments.set_deployment_status ◌>>=◌
  set_finished-ok id now w calm named there =
      let (dep, deps', replaced, e) =
        update_found id (with_deployment_status Deployment.finished now) w calm there in
      (dep, deps', replaced, rw (named, e) refl)

  pub abort_devices-ok :
      (id : String) (w : World)
      → w.faults ≡ []
      → is_empty id ≡ false
      → Devices.abort_device_deployments mongo id w
        ≡ (ok tt, record w { db = record w.db { devices = map (aborted_in id) w.devices } })
  unfolding Devices.abort_device_deployments Devices.update_devices ◌>>=◌
  abort_devices-ok id w calm named =
      rw
        (
          named,
          command-answered
              (λ db. (
                tt,
                record db {
                  devices =
                      mongo.update_many DeviceDeployment
                        (λ d. d.deployment_id == id && d.active && present d)
                        (with_status Status.aborted) db.devices;
                },
              ))
              w calm,
          mongo.update_many_lem DeviceDeployment
              (λ d. d.deployment_id == id && d.active && present d) (with_status Status.aborted)
              w.devices,
        )
        refl

  abbrev pub live_counts : String → List DeviceDeployment → Stats
  live_counts id ds =
      set_all
        (mongo.group_count DeviceDeployment Status Status.status_eq
          (λ d. d.deployment_id == id && present d) (λ d. d.status) ds)
        Stats.new_stats

  pub aggregate-ok :
      (id : String) (w : World)
      → w.faults ≡ []
      → is_empty id ≡ false
      → Devices.aggregate_device_deployment_by_status mongo id w
        ≡ (ok (live_counts id w.devices), w)
  unfolding Devices.aggregate_device_deployment_by_status ◌>>=◌
  aggregate-ok id w calm named =
      rw
        (
          named,
          query-answered
              (λ db.
                mongo.group_count DeviceDeployment Status Status.status_eq
                  (λ d. d.deployment_id == id && present d) (λ d. d.status) db.devices)
              w calm,
        )
        refl

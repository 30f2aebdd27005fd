-- ===== src/App/Assignment/Oldest.antt =====
-- The request of a device that has active device deployments (getDeploymentForDevice of
-- app/app.go).
use deployments.Shared.{
  ℕ, ◌≤◌, String, ◌≡◌, refl, inl, inr, Bool, true, false, ◌&&◌, some, List, [], ◌==◌, eq_iff, arith,
}
use deployments.Shared.Tests.{Option-cases}
use deployments.Shared.Lists.{All, any}
use deployments.Model.Deployment.{Deployment, is_empty}
use deployments.Model.DeviceDeployment.{DeviceDeployment}
use deployments.Store.Errors.{ok}
use deployments.Store.World.{World}
use deployments.Store.Exec.{◌>>=◌}
use deployments.Store.Live.{query-answered, none-any}
use deployments.Store.Mongo.{Mongo, natural, ascending, find_one}
use deployments.Store.Mongo.Order.{before, weaken-All}
use deployments.Store.Mongo.Laws.{find_one-none, find_one-first, find_one-passes, find_one-among}
use deployments.Store.Devices.{
  present, created_key, find_device, find_oldest_active_device_deployment,
}
use deployments.Store.Deployments.{find_deployment, find_deployment_by_id}
use deployments.App.Assignment.{deployment_of, continue_oldest, get_deployment_for_device}

-- a live, active device deployment of the device
abbrev pub has_active : String → DeviceDeployment → Bool
has_active device_id d = d.active && d.device_id == device_id && present d

-- the deployment of a device deployment is there
abbrev pub IsKept : List Deployment → DeviceDeployment → Type 0
IsKept deps d =
    (is_empty d.deployment_id ≡ false)
    × (any (λ (e : Deployment). e.id == d.deployment_id) deps ≡ true)

module _ (mongo : Mongo) where
  deployment_of-ok :
      (dd : DeviceDeployment) (w : World)
      → w.faults ≡ []
      → IsKept w.deployments dd
      → (dep : Deployment) × (dep.id ≡ dd.deployment_id)
        × (deployment_of mongo dd w ≡ (ok (some (dep, dd)), w))
  unfolding deployment_of find_deployment_by_id find_deployment ◌>>=◌
  deployment_of-ok dd w calm (named, there) =
      let p : Deployment → Bool = λ d. d.id == dd.deployment_id in
      elim (Option-cases (find_one mongo Deployment p natural w.deployments)) [
        | inl missing ↦ absurd (
            ground (
              arith,
              none-any p w.deployments (find_one-none mongo p natural w.deployments missing),
            ))
        | inr (dep, found) ↦ (
          dep,
          (eq_iff dep.id dd.deployment_id).0
              (find_one-passes mongo p natural w.deployments dep found),
          rw
              (
                named,
                query-answered (λ db. find_one mongo Deployment p natural db.deployments) w calm,
                found,
              )
              refl,
        )
      ]

  before_≤ :
      (device_id : String) (dd d : DeviceDeployment)
      → (has_active device_id d ≡ true → before (ascending created_key) dd d ≡ true)
      → has_active device_id d ≡ true
      → created_key dd ≤ created_key d
  before_≤ device_id dd d h here = ground (arith, h here)

  -- A device with a live, active device deployment asks for a deployment, while the database answers
  -- and the deployments of all its active device deployments are there. It gets one of its active
  -- device deployments, than which none of its others is older, and the deployment of that; the
  -- world stays as it was.
  pub get_deployment-oldest :
      (fuel : ℕ) (device_id : String) (w : World)
      → w.faults ≡ []
      → is_empty device_id ≡ false
      → any (has_active device_id) w.devices ≡ true
      → All (λ d. has_active device_id d ≡ true → IsKept w.deployments d) w.devices
      → (dep : Deployment) × (dd : DeviceDeployment) × (get_deployment_for_device mongo fuel
            device_id w
          ≡ (ok (some (dep, dd)), w))
        × (has_active device_id dd ≡ true)
        × (dep.id ≡ dd.deployment_id)
        × All (λ d. has_active device_id d ≡ true → created_key dd ≤ created_key d) w.devices
  unfolding get_deployment_for_device continue_oldest find_oldest_active_device_deployment
      find_device ◌>>=◌
  get_deployment-oldest fuel device_id w calm named live kept =
      let p : DeviceDeployment → Bool = has_active device_id in
      elim (Option-cases (find_one mongo DeviceDeployment p (ascending created_key) w.devices)) [
        | inl missing ↦ absurd (
            ground (
              arith,
              none-any p w.devices
                  (find_one-none mongo p (ascending created_key) w.devices missing),
            ))
        | inr (dd, found) ↦
            let passes = find_one-passes mongo p (ascending created_key) w.devices dd found in
            let (dep, same, got) = deployment_of-ok dd w calm (
              find_one-among mongo p (ascending created_key) w.devices
                (λ d. has_active device_id d ≡ true → IsKept w.deployments d) dd found kept
                passes) in
            (
              dep,
              dd,
              rw
                  (
                    named,
                    query-answered
                        (λ db. find_one mongo DeviceDeployment p (ascending created_key) db.devices)
                        w calm,
                    found,
                  )
                  got,
              passes,
              same,
              weaken-All (before_≤ device_id dd) w.devices
                  (find_one-first mongo p (ascending created_key) w.devices dd found),
            )
      ]

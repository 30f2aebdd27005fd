-- ===== src/Store/Live.antt =====
-- Reading the device deployment of a device in a deployment, while the database answers.
use deployments.Shared.{String, ◌≡◌, refl, inl, inr, Bool, true, false, List, [], ◌∷◌, arith}
use deployments.Shared.Tests.{Option-cases}
use deployments.Shared.Lists.{All, any}
use deployments.Model.DeviceDeployment.{DeviceDeployment}
use deployments.Store.Errors.{ok, err, storage_not_found}
use deployments.Store.World.{World, Database}
use deployments.Store.Exec.{query, command-answered, ◌>>=◌}
use deployments.Store.Mongo.{Mongo, descending, find_one}
use deployments.Store.Mongo.Laws.{find_one-none, find_one-among, find_one-passes}
use deployments.Store.Devices.{of_device, created_key, get_device_deployment}

pub query-answered :
    {A : Type 0} (f : Database → A) (w : World) → w.faults ≡ [] → query f w ≡ (ok (f w.db), w)
unfolding query
query-answered f w calm = command-answered (λ db. (f db, db)) w calm

pub none-any :
    {D : Type 0} (p : D → Bool) (ds : List D) → All (λ d. p d ≡ false) ds → any p ds ≡ false
unfolding any
none-any p [] h = refl
none-any p (d ∷ ds) h = ground (arith, none-any p ds)

pub any-none :
    {D : Type 0} (p : D → Bool) (ds : List D) → any p ds ≡ false → All (λ d. p d ≡ false) ds
unfolding any
any-none p [] h = tt
any-none p (d ∷ ds) h = (ground arith, any-none p ds (ground arith))

module _ (mongo : Mongo) (id device_id : String) (w : World) (calm : w.faults ≡ []) where
  -- a device with a live document: one of them is read, and nothing changes
  pub get_device_deployment-some :
      any (of_device device_id id) w.devices ≡ true
      → (dd : DeviceDeployment) × (get_device_deployment mongo id device_id false w ≡ (ok dd, w))
        × (of_device device_id id dd ≡ true)
        × ((P : DeviceDeployment → Type 0) → All P w.devices → P dd)
  unfolding get_device_deployment ◌>>=◌
  get_device_deployment-some live =
      let p = of_device device_id id in
      elim (Option-cases (find_one mongo DeviceDeployment p (descending created_key) w.devices)) [
        | inl missing ↦ absurd (
            ground (
              arith,
              none-any p w.devices
                  (find_one-none mongo p (descending created_key) w.devices missing),
            ))
        | inr (dd, found) ↦ (
          dd,
          rw (query-answered _ w calm, found),
          find_one-passes mongo p (descending created_key) w.devices dd found,
          λ P h. find_one-among mongo p (descending created_key) w.devices P dd found h,
        )
      ]

  -- a device with none is not found, and nothing changes
  pub get_device_deployment-none :
      any (of_device device_id id) w.devices ≡ false
      → get_device_deployment mongo id device_id false w ≡ (err storage_not_found, w)
  unfolding get_device_deployment ◌>>=◌
  get_device_deployment-none gone =
      let p = of_device device_id id in
      elim (Option-cases (find_one mongo DeviceDeployment p (descending created_key) w.devices)) [
        | inl missing ↦ rw (query-answered _ w calm, missing)
        | inr (dd, found) ↦ absurd (
            ground (
              arith,
              find_one-passes mongo p (descending created_key) w.devices dd found,
              find_one-among mongo p (descending created_key) w.devices (λ d. p d ≡ false) dd found
                  (any-none p w.devices gone),
            ))
      ]

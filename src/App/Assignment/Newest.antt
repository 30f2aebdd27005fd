-- ===== src/App/Assignment/Newest.antt =====
-- The deployments that a device had and the one that it is offered (getNewDeploymentForDevice of
-- app/app.go).
use deployments.Shared.{
  ℕ, String, ◌≡◌, refl, inl, inr, Bool, true, false, ◌&&◌, Option, none, some, List, [], ◌∷◌, ◌==◌,
  arith,
}
use deployments.Shared.Tests.{if◌then◌else◌, leb, is_some, Bool-cases}
use deployments.Shared.Lists.{All}
use deployments.Model.Deployment.{Deployment, is_empty}
use deployments.Model.DeviceDeployment.{DeviceDeployment}
use deployments.Store.Errors.{ok}
use deployments.Store.World.{World, Database}
use deployments.Store.Exec.{wrap, refuse_if, ◌>>=◌}
use deployments.Store.Exec.Raises.{query-cases}
use deployments.Store.Exec.Returns.{Returned, Returned-ok}
use deployments.Store.Mongo.{Mongo, ascending, descending, find_one}
use deployments.Store.Mongo.Laws.{find-none, find_one-none, find_one-first}
use deployments.Store.Mongo.Order.{before, weaken-All}
use deployments.Model.Status.{pending}
use deployments.Store.Devices.{
  present, time_key, created_key, find_device, find_latest_inactive_device_deployment,
}
use deployments.Store.Deployments.{after}
use deployments.App.Assignment.{last_created, get_new_deployment_for_device}
use deployments.App.Assignment.Search.{newer}
use deployments.App.Assignment.Offers.{Answer, IsFresh, is_part, search-Answer}

-- a device deployment of the device that is no longer active, and not deleted from its history
abbrev pub had : String → DeviceDeployment → Bool
had device_id d = (if d.active then false else true) && d.device_id == device_id && present d

after_trans :
    (a b c : Option ℕ)
    → after a b ≡ true
    → leb (time_key c) (time_key b) ≡ true
    → is_some c ≡ true
    → after a c ≡ true
after_trans none b c h k s = absurd (cc)
after_trans (some a) none c h k s = absurd (cc)
after_trans (some a) (some b) none h k s = absurd (cc)
after_trans (some a) (some b) (some c) h k s = ground arith

older :
    (device_id : String) (dep : Deployment) (dd : DeviceDeployment) (ds : List DeviceDeployment)
    → after dep.created dd.created ≡ true
    → All (λ d. had device_id d ≡ true → before (descending created_key) dd d ≡ true) ds
    → All (λ d. had device_id d ≡ true → is_some d.created ≡ true) ds
    → All (λ d. had device_id d ≡ true → after dep.created d.created ≡ true) ds
older device_id dep dd [] newer first dated = tt
older device_id dep dd (d ∷ ds) newer first dated = (
  (λ h. after_trans dep.created dd.created d.created newer (first.0 h) (dated.0 h)),
  older device_id dep dd ds newer first.1 dated.1,
)

module _ (mongo : Mongo) where
  abbrev pub latest : String → Database → Option DeviceDeployment
  latest device_id db =
      find_one mongo DeviceDeployment (had device_id) (descending created_key) db.devices

  new-Answer :
      (fuel : ℕ) (device_id : String) (w : World)
      → Returned
          (Answer device_id
            (last_created (latest device_id w.db))
            (newer mongo (last_created (latest device_id w.db)) w.db))
          (get_new_deployment_for_device mongo fuel device_id w).0
  unfolding get_new_deployment_for_device find_latest_inactive_device_deployment find_device
      refuse_if wrap ◌>>=◌
  new-Answer fuel device_id w = elim (Bool-cases (is_empty device_id)) [
    | inl unnamed ↦ rw unnamed tt
    | inr named ↦ rw named (
        let (w', same, answer) = query-cases (λ db. latest device_id db) w in
        elim answer [
          | inr e ↦ rw e tt
          | inl e ↦ rw e (
              search-Answer mongo fuel device_id (last_created (latest device_id w.db)) 0 w.db w'
                same)
        ])
  ]

  new-Answer_none :
      (device_id : String) (last : Option ℕ) (db : Database)
      → All (λ d. is_part device_id d ≡ false) (newer mongo last db)
      → All
          (λ d. ((d.active && after d.created last) && is_part device_id d) ≡ false)
          db.deployments
  new-Answer_none device_id last db h =
      find-none mongo (λ d. d.active && after d.created last) (ascending (λ d. time_key d.created))
        db.deployments (is_part device_id) h

  after-newer :
      (device_id : String) (dep : Deployment) (db : Database) (o : Option DeviceDeployment)
      → latest device_id db ≡ o
      → after dep.created (last_created o) ≡ true
      → All (λ d. had device_id d ≡ true → is_some d.created ≡ true) db.devices
      → All (λ d. had device_id d ≡ true → after dep.created d.created ≡ true) db.devices
  after-newer device_id dep db none e passes dated =
      weaken-All (λ d gone here. absurd (ground arith)) db.devices
        (find_one-none mongo (had device_id) (descending created_key) db.devices e)
  after-newer device_id dep db (some dd) e passes dated =
      older device_id dep dd db.devices passes
        (find_one-first mongo (had device_id) (descending created_key) db.devices dd e) dated

  -- A new deployment that a device is offered lists the device, is active, and was created after
  -- every deployment that the device had and is done with and whose device deployment is not deleted
  -- from its history, if these all have a time of creation; the device deployment made for it is
  -- pending and bears the deployment's time of creation. This holds whatever calls of the database
  -- fail.
  pub new_deployment-newer :
      (fuel : ℕ) (device_id : String) (w : World) (dep : Deployment) (dd : DeviceDeployment)
      → (get_new_deployment_for_device mongo fuel device_id w).0 ≡ ok (some (dep, dd))
      → All (λ d. had device_id d ≡ true → is_some d.created ≡ true) w.devices
      → (is_part device_id dep ≡ true)
        × (dep.active ≡ true)
        × All (λ d. had device_id d ≡ true → after dep.created d.created ≡ true) w.devices
        × IsFresh device_id pending dep dd
  new_deployment-newer fuel device_id w dep dd e dated =
      let (part, passes, fresh) = Returned-ok _ _ _ e (new-Answer fuel device_id w) in
      (
        part,
        ground arith,
        after-newer device_id dep w.db (latest device_id w.db) refl (ground arith) dated,
        fresh,
      )

  -- When a device is offered no new deployment, none in the database is both active and newer than
  -- the last deployment that the device is done with, and lists the device.
  pub no_deployment-none_newer :
      (fuel : ℕ) (device_id : String) (w : World)
      → (get_new_deployment_for_device mongo fuel device_id w).0 ≡ ok none
      → All
          (λ d.
            ((d.active && after d.created (last_created (latest device_id w.db)))
              && is_part device_id d)
            ≡ false)
          w.deployments
  no_deployment-none_newer fuel device_id w e =
      new-Answer_none device_id (last_created (latest device_id w.db)) w.db
        (Returned-ok _ _ _ e (new-Answer fuel device_id w))

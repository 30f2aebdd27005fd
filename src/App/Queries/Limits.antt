-- ===== src/App/Queries/Limits.antt =====
-- The bounds on the requests for last statuses, and the request for a deployment that is not there
-- (app/app_last_status.go, GetDeployment of app/app.go).
use deployments.Shared.{
  ℕ, ◌≡◌, refl, ◌<◌, inl, inr, String, Bool, true, false, ◌&&◌, List, [], ◌==◌, arith,
}
use deployments.Shared.Tests.{ltb, Option-cases, Bool-cases}
use deployments.Shared.Lists.{All, any, length}
use deployments.Model.Deployment.{Deployment, is_empty}
use deployments.Model.DeviceDeployment.{DeviceDeploymentLastStatus}
use deployments.Store.Errors.{err, no_ids_given, array_too_big, nil_dereference}
use deployments.Store.World.{World}
use deployments.Store.Exec.{command-answered, query, ◌>>=◌}
use deployments.Store.Exec.Returns.{Returned, Returned-refuse_if, Returned-query}
use deployments.Store.Mongo.{Mongo, natural, find_one}
use deployments.Store.Mongo.Laws.{find-passes, find_one-passes, find_one-among}
use deployments.Store.Deployments
use deployments.App.Queries.{
  get_deployment, get_device_deployment_last_status, get_last_device_deployment_status,
  max_device_array_length,
}

-- a status that was asked for
abbrev pub asked_for : List String → String → DeviceDeploymentLastStatus → Bool
asked_for ids tenant l = any (λ id. id == l.device_id) ids && l.tenant_id == tenant

is_few : (n : ℕ) → ltb n 1 ≡ true → n < 1
is_few n h = ground arith

is_some_length : (n : ℕ) → max_device_array_length < n → ltb n 1 ≡ false
is_some_length n many = elim (Bool-cases (ltb n 1)) [
  | inl few ↦ absurd (omega (arith, many, is_few n few))
  | inr more ↦ more
]

is_beyond : (a b : ℕ) → a < b → ltb a b ≡ true
is_beyond a b h = ground arith

module _ (mongo : Mongo) where
  get_last-asked_for :
      (ids : List String) (w : World)
      → Returned
          (All (λ l. asked_for ids w.tenant l ≡ true))
          (get_last_device_deployment_status mongo ids w).0
  unfolding get_last_device_deployment_status ◌>>=◌
  get_last-asked_for ids w =
      Returned-query _ w _
        (find-passes mongo (asked_for ids w.tenant) natural w.devices_last_status)

  last_status-asked_for :
      (ids : List String) (w : World)
      → Returned
          (All (λ l. asked_for ids w.tenant l ≡ true))
          (get_device_deployment_last_status mongo ids w).0
  unfolding get_device_deployment_last_status
  last_status-asked_for ids w =
      Returned-refuse_if _ w _ _ _ (Returned-refuse_if _ w _ _ _ (get_last-asked_for ids w))

  -- A request for the last statuses of devices is refused, and reads nothing, if it names no device
  -- or more than 1024; and every status that any request gets is one of a device that it names,
  -- and of the tenant that asks.
  pub get_device_deployment_last_status-asked_for :
      (ids : List String) (w : World)
      → (length ids < 1 → get_device_deployment_last_status mongo ids w ≡ (err no_ids_given, w))
        × (max_device_array_length < length ids
            → get_device_deployment_last_status mongo ids w ≡ (err array_too_big, w))
        × Returned
            (All (λ l. asked_for ids w.tenant l ≡ true))
            (get_device_deployment_last_status mongo ids w).0
  unfolding get_device_deployment_last_status ◌>>=◌
  get_device_deployment_last_status-asked_for ids w = (
    λ few. let a : ltb (length ids) 1 ≡ true = ground (arith, few) in rw a refl,
    λ many.
        let a : ltb (length ids) 1 ≡ false = is_some_length (length ids) many in
        let b : ltb max_device_array_length (length ids) ≡ true = is_beyond _ _ many in
        rw (a, b) refl,
    last_status-asked_for ids w,
  )

  -- A request for a deployment that is not there follows a nil pointer, while the database answers.
  pub get_deployment-nil_dereference :
      (id : String) (w : World)
      → w.faults ≡ []
      → is_empty id ≡ false
      → All (λ d. (d.id == id) ≡ false) w.deployments
      → get_deployment mongo id w ≡ (err nil_dereference, w)
  unfolding get_deployment Deployments.find_deployment_by_id Deployments.find_deployment query ◌>>=◌
  get_deployment-nil_dereference id w calm named absent =
      let p : Deployment → Bool = λ d. d.id == id in
      elim (Option-cases (find_one mongo Deployment p natural w.deployments)) [
        | inl missing ↦
            rw
              (
                named,
                command-answered (λ db. (find_one mongo Deployment p natural db.deployments, db)) w
                    calm,
                missing,
              )
              refl
        | inr (d, found) ↦
            let here = find_one-passes mongo p natural w.deployments d found in
            let gone =
              find_one-among mongo p natural w.deployments (λ d. (d.id == id) ≡ false) d found
                absent in
            absurd (ground (arith, here, gone))
      ]
